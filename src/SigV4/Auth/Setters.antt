-- ===== src/SigV4/Auth/Setters.antt =====
-- The three setters in a row, as the query form calls them, leave no field absent.
use ozone_oidc_proxy.Base.{
  ◌≡◌, refl, ◌≢◌, inl, inr, List, [], ◌∷◌, ◌++◌, arith, is_nil, ok, ◌==◌, Bool-cases,
}
use ozone_oidc_proxy.Text.{Text, split, trim_space, to_lower}
use ozone_oidc_proxy.Text.Parts.{split_by-ne-nil}
use ozone_oidc_proxy.SigV4.{Authorization}
use ozone_oidc_proxy.SigV4.Auth.{
  no_authorization, set_scope, set_credential, add_headers, set_signed_headers, set_signature,
}
use ozone_oidc_proxy.SigV4.Auth.WellFormed.{
  IsWellFormed, no_authorization-IsPartial, set_credential-IsPartial, set_signed_headers-IsPartial,
  set_signature-IsPartial,
}

set_scope-key :
    (ps : List Text) (a b : Authorization) → set_scope a ps ≡ ok b → b.access_key_id ≢ []
unfolding set_scope
set_scope-key (akid ∷ date ∷ region ∷ service ∷ last ∷ []) a b e = ground arith
set_scope-key _ a b e = cc

set_credential-key :
    (a b : Authorization) (s : Text) → set_credential a s ≡ ok b → b.access_key_id ≢ []
unfolding set_credential
set_credential-key a b s e = set_scope-key (split b'/' s) a b e

concat_ne_nil : (xs : List Text) (x : Text) → xs ++ (x ∷ []) ≢ []
concat_ne_nil [] x = cc
concat_ne_nil (y ∷ xs) x = cc

add_headers-keeps :
    (hs : List Text) (a b : Authorization)
    → add_headers a hs ≡ ok b
    → (b.access_key_id ≡ a.access_key_id) × (a.signed_headers ≢ [] → b.signed_headers ≢ [])
unfolding add_headers
add_headers-keeps [] a b e = ground arith
add_headers-keeps (h ∷ hs) a b e =
    let name = to_lower (trim_space h) in
    let c = record a { signed_headers = a.signed_headers ++ (name ∷ []) } in
    elim (Bool-cases (is_nil name)) [
      | inl empty ↦ cc (rw empty at e)
      | inr full ↦
          let (key, ne) = add_headers-keeps hs c b (rw full at e) in
          (key, λ _. ne (concat_ne_nil a.signed_headers name))
    ]

add_headers-ne-nil :
    (hs : List Text) (a b : Authorization)
    → hs ≢ []
    → add_headers a hs ≡ ok b
    → b.signed_headers ≢ []
unfolding add_headers
add_headers-ne-nil [] a b ne e = absurd (ne refl)
add_headers-ne-nil (h ∷ hs) a b ne e =
    let name = to_lower (trim_space h) in
    let c = record a { signed_headers = a.signed_headers ++ (name ∷ []) } in
    elim (Bool-cases (is_nil name)) [
      | inl empty ↦ cc (rw empty at e)
      | inr full ↦ (add_headers-keeps hs c b (rw full at e)).1 (concat_ne_nil a.signed_headers name)
    ]

set_signature-keeps :
    (a b : Authorization) (s : Text)
    → set_signature a s ≡ ok b
    → (b.access_key_id ≡ a.access_key_id)
      × (b.signed_headers ≡ a.signed_headers)
      × (b.signature ≢ [])
unfolding set_signature
set_signature-keeps a b s e = ground arith

pub setters-IsWellFormed :
    (credential names signature : Text) {a b c : Authorization}
    → set_credential no_authorization credential ≡ ok a
    → set_signed_headers a names ≡ ok b
    → set_signature b signature ≡ ok c
    → IsWellFormed c
unfolding set_signed_headers
setters-IsWellFormed credential names signature {a} {b} {c} e f g =
    let v = set_credential-IsPartial no_authorization a credential no_authorization-IsPartial e in
    let w = set_signed_headers-IsPartial a b names v f in
    let x = set_signature-IsPartial b c signature w g in
    let (key, headers, signed) = set_signature-keeps b c signature g in
    let parts = split b';' names in
    let old = add_headers-keeps parts a b f in
    let ne = add_headers-ne-nil parts a b (split_by-ne-nil (λ d. d == b';') names) f in
    let key_ne : c.access_key_id ≢ [] =
      rw (key, old.0) (set_credential-key no_authorization a credential e) in
    record {
      key = key_ne;
      key_no_slash = x.key;
      date = x.date key_ne;
      headers_ne_nil = rw headers ne;
      headers = x.headers;
      signature = elim x.signature [ inl none ↦ absurd (signed none) | inr s ↦ s ];
    }
