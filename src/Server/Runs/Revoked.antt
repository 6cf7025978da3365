-- ===== src/Server/Runs/Revoked.antt =====
-- A revoked key stays revoked.
use ozone_oidc_proxy.Base.{
  ◌≡◌, ◌≢◌, refl, ap, ◌∙◌, inl, inr, List, [], ◌∷◌, none, some, ok, true, false, All, arith,
  if◌then◌else◌, Option, Result, Bool,
}
use ozone_oidc_proxy.Text.{Text, text_eq, codes, cut_prefix, has_prefix}
use ozone_oidc_proxy.Text.Equality.{text_eq_ne}
use ozone_oidc_proxy.Go.Http
use ozone_oidc_proxy.Go.Http.{Request}
use ozone_oidc_proxy.Config.{Config}
use ozone_oidc_proxy.Platform.{Platform}
use ozone_oidc_proxy.SigV4.{Authorization}
use ozone_oidc_proxy.SigV4.Auth.{is_sigv4, parse_authorization}
use ozone_oidc_proxy.SigV4.Presign.{Presigned, is_presigned, parse_presigned}
use ozone_oidc_proxy.Store.{Credentials, Store, IsStore, Failure}
use ozone_oidc_proxy.Sts.{TokenValidator}
use ozone_oidc_proxy.Server.{
  Readings, answered, s3_error, invalid_access_key_id, checked_credentials, serve_sigv4,
  serve_presigned, serve_data_path, handle_revoke, revoked,
}
use ozone_oidc_proxy.Server.Lanes.{get-handle_revoke}
use ozone_oidc_proxy.Server.Runs.{
  Proxy, Seen, served, revoke, Loses, Run, start, request, revocation, loss, Grants, same, stores,
  served-Change, handle_revoke-cases,
}

-- The request presents the access key: in a signature header, or in a presigned query with no
-- Authorization header.
pub data PresentsKey (akid : Text) (r : Request) : Type 0 where
  in_header :
      (auth : Authorization)
      → is_sigv4 (Http.get r.header (codes "Authorization")) ≡ true
      → parse_authorization (Http.get r.header (codes "Authorization")) ≡ ok auth
      → auth.access_key_id ≡ akid
      → PresentsKey akid r
  in_url :
      (auth : Presigned)
      → Http.get r.header (codes "Authorization") ≡ []
      → is_presigned r ≡ true
      → parse_presigned r ≡ ok auth
      → auth.authorization.access_key_id ≡ akid
      → PresentsKey akid r

is_sigv4-no_bearer :
    (header : Text) → is_sigv4 header ≡ true → cut_prefix header (codes "Bearer ") ≡ none
unfolding is_sigv4 has_prefix cut_prefix
is_sigv4-no_bearer [] h = refl
is_sigv4-no_bearer (c ∷ header) h = let a : c ≡ b'A' = ground arith in rw a refl

module _ (p : Platform) (cfg : Config) (host : Text) (tv : TokenValidator) (st : Store)
    (akid : Text) where
  -- No exchange of the run has granted the key.
  abbrev pub NeverGrants : List (Seen p cfg host tv st) → Type 0
  NeverGrants = All (λ e. (c : Credentials) → Grants p cfg host tv st c e → c.access_key_id ≢ akid)

  absent_other :
      (b : Bool) (x : Option Credentials) (other : Result Failure (Option Credentials))
      → b ≡ false
      → other ≡ ok none
      → (if b then ok x else other) ≡ ok none
  absent_other false x other h e = e
  absent_other true x other h e = cc

  absent_none :
      (b : Bool) (other : Result Failure (Option Credentials))
      → other ≡ ok none
      → (if b then ok none else other) ≡ ok none
  absent_none false other e = e
  absent_none true other e = refl

  module _ (laws : IsStore st) where
    request-absent :
        (e : Seen p cfg host tv st)
        → ((c : Credentials) → Grants p cfg host tv st c e → c.access_key_id ≢ akid)
        → st.get e.before.store akid ≡ ok none
        → st.get (served p cfg host tv st e).store akid ≡ ok none
    request-absent e never absent = elim (served-Change p cfg host tv st laws e) [
      | same unchanged ↦ ap (λ s. st.get s akid) unchanged ∙ absent
      | stores c grants put ↦
          laws.get-put e.before.store c (served p cfg host tv st e).store akid put
          ∙ absent_other (text_eq c.access_key_id akid) (some c) (st.get e.before.store akid)
              (text_eq_ne c.access_key_id akid (never c grants)) absent
    ]

    revoke-absent :
        (s : st.State) (k : Text)
        → st.get s akid ≡ ok none
        → st.get (handle_revoke st s k).1 akid ≡ ok none
    revoke-absent s k absent = elim (handle_revoke-cases p cfg host tv st s k) [
      | inl unchanged ↦ ap (λ u. st.get u akid) unchanged ∙ absent
      | inr deleted ↦
          laws.get-delete s k (handle_revoke st s k).1 akid deleted
          ∙ absent_none (text_eq k akid) (st.get s akid) absent
    ]

    loss-absent :
        (s s' : st.State)
        → Loses p cfg host tv st s s'
        → st.get s akid ≡ ok none
        → st.get s' akid ≡ ok none
    loss-absent s s' loses absent = elim (loses akid) [ inl kept ↦ kept ∙ absent | inr gone ↦ gone ]

    -- A key that is absent stays so, as long as it is not granted.
    pub Run-absent :
        {s u : Proxy p cfg host tv st} {log : List (Seen p cfg host tv st)}
        → st.get s.store akid ≡ ok none
        → Run p cfg host tv st s log u
        → NeverGrants log
        → st.get u.store akid ≡ ok none
    Run-absent absent start never = absent
    Run-absent absent (request {log} {u} r t random run) (first, never) =
        request-absent (record { request = r; readings = t; random = random; before = u }) first
          (Run-absent absent run never)
    Run-absent absent (revocation {log} {u} k run) never =
        revoke-absent u.store k (Run-absent absent run never)
    Run-absent absent (loss {log} {u} s' run loses) never =
        loss-absent u.store s' loses (Run-absent absent run never)

  serve_data_path-absent :
      (u : Proxy p cfg host tv st) (r : Request) (t : Readings)
      → st.get u.store akid ≡ ok none
      → PresentsKey akid r
      → (serve_data_path p cfg host tv st r t u.validator u.store).answer
        ≡ answered (s3_error 403 invalid_access_key_id)
  unfolding serve_data_path serve_sigv4 serve_presigned checked_credentials cut_prefix is_sigv4
      has_prefix
  serve_data_path-absent u r t absent (in_header auth signed parsed key) =
      let none_here : st.get u.store auth.access_key_id ≡ ok none =
        ap (st.get u.store) key ∙ absent in
      rw
        (
          is_sigv4-no_bearer (Http.get r.header (codes "Authorization")) signed,
          signed,
          parsed,
          none_here,
        )
        refl
  serve_data_path-absent u r t absent (in_url auth no_header pre parsed key) =
      let none_here : st.get u.store auth.authorization.access_key_id ≡ ok none =
        ap (st.get u.store) key ∙ absent in
      rw (no_header, pre, parsed, none_here) refl

-- Once a key has been revoked, a request that presents it is answered 403 InvalidAccessKeyId, after
-- any further requests, revocations and losses of records, as long as no exchange grants the same key
-- again. The store keeps its laws.
pub serve_data_path-revoked :
    (p : Platform) (cfg : Config) (host : Text) (tv : TokenValidator) (st : Store) (akid : Text)
    (s u : Proxy p cfg host tv st) (log : List (Seen p cfg host tv st)) (r : Request) (t : Readings)
    → IsStore st
    → (handle_revoke st s.store akid).0 ≡ revoked
    → Run p cfg host tv st (revoke p cfg host tv st s akid) log u
    → NeverGrants p cfg host tv st akid log
    → PresentsKey akid r
    → (serve_data_path p cfg host tv st r t u.validator u.store).answer
      ≡ answered (s3_error 403 invalid_access_key_id)
serve_data_path-revoked p cfg host tv st akid s u log r t laws done run never presents =
    serve_data_path-absent p cfg host tv st akid u r t
      (Run-absent p cfg host tv st akid laws (get-handle_revoke st laws s.store akid done) run
        never)
      presents
