-- ===== src/Store/Valkey/Laws.antt =====
-- What the store is relied on for, and what a record that was written gives when it is read.
use ozone_oidc_proxy.Base.{
  ℕ, ◌≡◌, ◌≢◌, refl, ◌∙◌, inl, inr, Bool, true, false, Bool-cases, [], ◌∷◌, ◌++◌, Option, none,
  some, Option-cases, arith, ltb, if◌then◌else◌, length, length-append, take-append, drop-append, ℤ,
  ok, err,
}
use ozone_oidc_proxy.Text.{Text, text_eq}
use ozone_oidc_proxy.Text.Equality.{text_eq_iff, text_eq_refl}
use ozone_oidc_proxy.Go.Clock.{Duration}
use ozone_oidc_proxy.Store.{Credentials}
use ozone_oidc_proxy.Store.Valkey.{
  undecryptable, Aead, Remote, valkey_prefix, sealed_with, open_sealed, sealed, seal, put_sealed,
  ttl_of, milliseconds, done, put, decoded, get, delete,
}

-- The cipher: what is sealed opens, and nothing else does.
pub record IsAead (aead : Aead) : Type 0 where
  pub gcm_open-gcm_seal :
      (nonce plain aad : Text)
      → length nonce ≡ aead.nonce_size
      → aead.gcm_open nonce (aead.gcm_seal nonce plain aad) aad ≡ some plain
  pub sealed_of_open :
      (nonce cipher aad plain : Text)
      → aead.gcm_open nonce cipher aad ≡ some plain
      → cipher ≡ aead.gcm_seal nonce plain aad
  -- the tag binds the authenticated data
  pub binds :
      (nonce plain other aad aad' : Text)
      → aead.gcm_seal nonce plain aad ≡ aead.gcm_seal nonce other aad'
      → aad ≡ aad'

-- The server, read when the local cache has seen every invalidation and no record has run out: it is
-- a map from keys to values.
pub record IsRemote (r : Remote) : Type 0 where
  pub get-set_px :
      (w : r.World) (key value : Text) (px : ℤ) (other : Text)
      → (r.set_px w key value px).0 ≡ true
      → r.get (r.set_px w key value px).1 other
        ≡ (if text_eq key other then ok (some value) else r.get w other)
  pub get-del :
      (w : r.World) (key other : Text)
      → (r.del w key).0 ≡ true
      → r.get (r.del w key).1 other ≡ (if text_eq key other then ok none else r.get w other)
  pub get-random :
      (w : r.World) (n : ℕ) (other : Text) → r.get (r.random w n).1 other ≡ r.get w other
  pub length-random :
      (w : r.World) (n : ℕ) (nonce : Text) → (r.random w n).0 ≡ some nonce → length nonce ≡ n

-- `open` is the inverse of `seal` under the same authenticated data.
pub open_sealed-sealed_with :
    (aead : Aead) (nonce plain aad other : Text)
    → length nonce ≡ aead.nonce_size
    → open_sealed aead (sealed_with aead nonce plain aad) other
      ≡ aead.gcm_open nonce (aead.gcm_seal nonce plain aad) other
unfolding open_sealed
open_sealed-sealed_with aead nonce plain aad other h =
    let cipher = aead.gcm_seal nonce plain aad in
    let long : ltb (length (nonce ++ cipher)) aead.nonce_size ≡ false =
      ground (arith, length-append nonce cipher) in
    rw (long, ← h, take-append nonce cipher, drop-append nonce cipher) refl

-- Under another access key it does not open.
pub open_sealed_other :
    (aead : Aead) (nonce plain aad other : Text)
    → IsAead aead
    → length nonce ≡ aead.nonce_size
    → aad ≢ other
    → open_sealed aead (sealed_with aead nonce plain aad) other ≡ none
open_sealed_other aead nonce plain aad other laws h apart =
    let cipher = aead.gcm_seal nonce plain aad in
    elim (Option-cases (aead.gcm_open nonce cipher other)) [
      | inl e ↦ open_sealed-sealed_with aead nonce plain aad other h ∙ e
      | inr (text, e) ↦
          elim (apart (
            laws.binds nonce plain text aad other
              (laws.sealed_of_open nonce cipher other text e))) [ ]
    ]

text_eq-append : (p s t : Text) → text_eq (p ++ s) (p ++ t) ≡ text_eq s t
unfolding text_eq
text_eq-append [] s t = refl
text_eq-append (c ∷ p) s t = ground (arith, text_eq-append p s t)

-- A put that succeeded has stored a sealed record under a nonce of the right length.
pub record IsSealed (r : Remote) (aead : Aead) (w : r.World) (c : Credentials) (w' : r.World)
    : Type 0 where
  pub plain : Text
  pub nonce : Text
  pub encoded : r.encode c ≡ some plain
  pub nonce_length : length nonce ≡ aead.nonce_size
  pub reads :
      (other : Text)
      → r.get w' (valkey_prefix ++ other) ≡ (
          if text_eq c.access_key_id other
          then ok (some (sealed_with aead nonce plain c.access_key_id))
          else r.get w (valkey_prefix ++ other))

module _ (r : Remote) (laws : IsRemote r) (aead : Aead) where
  open r use {World}

  done_sound : (b : Bool × World) → (done r b).0 ≡ ok tt → (b.0 ≡ true) × ((done r b).1 ≡ b.1)
  done_sound (true, w) h = (refl, refl)
  done_sound (false, w) h = cc

  put_sealed-IsSealed :
      (w : World) (c : Credentials) (px : Duration) (plain : Text) (s : Option Text × World)
      → r.encode c ≡ some plain
      → ((nonce : Text) → s.0 ≡ some nonce → length nonce ≡ aead.nonce_size)
      → ((other : Text) → r.get s.1 other ≡ r.get w other)
      → (put_sealed r px c (sealed r aead plain c.access_key_id s)).0 ≡ ok tt
      → IsSealed r aead w c (put_sealed r px c (sealed r aead plain c.access_key_id s)).1
  put_sealed-IsSealed w c px plain (none, u) e long same h = cc
  put_sealed-IsSealed w c px plain (some nonce, u) e long same h =
      let value = sealed_with aead nonce plain c.access_key_id in
      let key = valkey_prefix ++ c.access_key_id in
      let (set, now) = done_sound (r.set_px u key value (milliseconds px)) h in
      record {
        plain = plain;
        nonce = nonce;
        encoded = e;
        nonce_length = long nonce refl;
        reads = λ other.
            rw
              (
                now,
                laws.get-set_px u key value (milliseconds px) (valkey_prefix ++ other) set,
                text_eq-append valkey_prefix c.access_key_id other,
                same (valkey_prefix ++ other),
              )
              refl;
      }

  pub put-IsSealed :
      (retention : Duration) (w : World) (c : Credentials)
      → (put r aead retention w c).0 ≡ ok tt
      → IsSealed r aead w c (put r aead retention w c).1
  unfolding put seal
  put-IsSealed retention w c h = elim (Option-cases (r.encode c)) [
    | inl e ↦ cc (rw (e, put) at h)
    | inr (plain, e) ↦ rw e (
        put_sealed-IsSealed w c (ttl_of r retention (r.now w) c) plain (r.random w aead.nonce_size)
          e (laws.length-random w aead.nonce_size) (laws.get-random w aead.nonce_size)
          (rw (e, put) at h))
  ]

  -- A sealed record that is read under its own access key.
  decoded_own :
      (w w' : World) (c : Credentials) (s : IsSealed r aead w c w')
      → IsAead aead
      → ((plain : Text) → r.encode c ≡ some plain → r.decode plain ≡ some c)
      → decoded r
          (open_sealed aead (sealed_with aead s.nonce s.plain c.access_key_id) c.access_key_id)
        ≡ ok (some c)
  decoded_own w w' c s sound codec =
      let open_eq =
        open_sealed-sealed_with aead s.nonce s.plain c.access_key_id c.access_key_id s.nonce_length
        ∙ sound.gcm_open-gcm_seal s.nonce s.plain c.access_key_id s.nonce_length in
      rw (open_eq, codec s.plain s.encoded) refl

  pub get-IsSealed :
      (w w' : World) (c : Credentials) (other : Text)
      → IsSealed r aead w c w'
      → IsAead aead
      → ((plain : Text) → r.encode c ≡ some plain → r.decode plain ≡ some c)
      → get r aead w' other
        ≡ (if text_eq c.access_key_id other then ok (some c) else get r aead w other)
  unfolding get
  get-IsSealed w w' c other s sound codec = elim (Bool-cases (text_eq c.access_key_id other)) [
    | inl e ↦
        let same = (text_eq_iff c.access_key_id other).0 e in
        rw (s.reads other, e, ← same) (decoded_own w w' c s sound codec)
    | inr e ↦ rw (s.reads other, e) refl
  ]

  -- What a delete that succeeded leaves.
  pub get-delete :
      (w : World) (akid other : Text)
      → (delete r w akid).0 ≡ ok tt
      → get r aead (delete r w akid).1 other
        ≡ (if text_eq akid other then ok none else get r aead w other)
  unfolding get delete
  get-delete w akid other h =
      let key = valkey_prefix ++ akid in
      let (gone, now) = done_sound (r.del w key) h in
      elim (Bool-cases (text_eq akid other)) [
        | inl e ↦
            rw
              (
                now,
                laws.get-del w key (valkey_prefix ++ other) gone,
                text_eq-append valkey_prefix akid other,
                e,
              )
              refl
        | inr e ↦
            rw
              (
                now,
                laws.get-del w key (valkey_prefix ++ other) gone,
                text_eq-append valkey_prefix akid other,
                e,
              )
              refl
      ]

-- Someone who can write to the server cannot pass one record off as another: the value under the
-- access key of a stored record, copied to another access key, is refused there.
pub get-graft :
    (r : Remote) (aead : Aead) (retention : Duration) (w : r.World) (c : Credentials)
    (value akid : Text) (px : ℤ)
    → IsRemote r
    → IsAead aead
    → (put r aead retention w c).0 ≡ ok tt
    → r.get (put r aead retention w c).1 (valkey_prefix ++ c.access_key_id) ≡ ok (some value)
    → (r.set_px (put r aead retention w c).1 (valkey_prefix ++ akid) value px).0 ≡ true
    → c.access_key_id ≢ akid
    → get r aead (r.set_px (put r aead retention w c).1 (valkey_prefix ++ akid) value px).1 akid
      ≡ err undecryptable
unfolding get
get-graft r aead retention w c value akid px laws sound h read set apart =
    let w' = (put r aead retention w c).1 in
    let s = put-IsSealed r laws aead retention w c h in
    let held : r.get w' (valkey_prefix ++ c.access_key_id)
        ≡ ok (some (sealed_with aead s.nonce s.plain c.access_key_id)) =
      s.reads c.access_key_id ∙ rw (text_eq_refl c.access_key_id) refl in
    let same : sealed_with aead s.nonce s.plain c.access_key_id ≡ value = cc (held, read) in
    rw
      (
        laws.get-set_px w' (valkey_prefix ++ akid) value px (valkey_prefix ++ akid) set,
        text_eq_refl (valkey_prefix ++ akid),
        ← same,
        open_sealed_other aead s.nonce s.plain c.access_key_id akid sound s.nonce_length apart,
      )
      refl
