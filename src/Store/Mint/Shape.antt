-- ===== src/Store/Mint/Shape.antt =====
-- The lengths of minted credentials.
use Prim.Native.Nat.{pred}
use ozone_oidc_proxy.Base.{
  ℕ, ◌%◌, Bool, true, all, All, ◌≡◌, refl, ap, suc, ◌+◌, ◌*◌, ◌/◌, arith, [], ◌∷◌, ◌++◌, length,
  length-append, some,
}
use ozone_oidc_proxy.Text.{Text}
use ozone_oidc_proxy.Go.Clock.{Time}
use ozone_oidc_proxy.Store.{Credentials}
use ozone_oidc_proxy.Store.Mint.{at, crockford32, crockford, base64url, akid_prefix, mint}

length-crockford : (s : Text) → length (crockford s) ≡ length s
unfolding crockford
length-crockford [] = refl
length-crockford (c ∷ s) = ap suc (length-crockford s)

-- Four characters for three bytes, and no padding.
length-base64url : (s : Text) → length (base64url s) ≡ (length s * 4 + 2) / 3
unfolding base64url
length-base64url [] = refl
length-base64url (a ∷ []) = refl
length-base64url (a ∷ b ∷ []) = refl
length-base64url (a ∷ b ∷ c ∷ s) = rw (length-base64url s) (omega arith)

-- Minting from 16, 30 and 32 random bytes gives an access key of 20 characters that starts with
-- OZPX, a secret of 40 characters and a session token of 43.
pub mint-lengths :
    (k s t : Text) (username issuer : Text) (expires_at : Time)
    → length k ≡ 16
    → length s ≡ 30
    → length t ≡ 32
    → (c : Credentials) × (mint
          (record { key_bytes = some k; secret_bytes = some s; token_bytes = some t })
          username
          issuer
          expires_at
        ≡ some c)
      × ((key : Text) × (c.access_key_id ≡ akid_prefix ++ key))
      × (length c.access_key_id ≡ 20)
      × (length c.secret_access_key ≡ 40)
      × (length c.session_token ≡ 43)
unfolding mint
mint-lengths k s t username issuer expires_at hk hs ht = (
  _,
  refl,
  (crockford k, refl),
  rw (length-append akid_prefix (crockford k), length-crockford k, hk) refl,
  rw (length-base64url s, hs) refl,
  rw (length-base64url t, ht) refl,
)

at-all :
    (test : ℕ → Bool) (s : Text) (i : ℕ) → test 0 ≡ true → all test s ≡ true → test (at s i) ≡ true
unfolding at
at-all test [] i zero_ok h = zero_ok
at-all test (c ∷ s) i zero_ok h = ground (arith, at-all test s (pred i) zero_ok)

-- What holds of every character of the alphabet, and of 0, holds of every character of a key.
pub crockford-all :
    (test : ℕ → Bool) (bytes : Text)
    → test 0 ≡ true
    → all test crockford32 ≡ true
    → All (λ c. test c ≡ true) (crockford bytes)
unfolding crockford
crockford-all test [] zero_ok h = tt
crockford-all test (b ∷ bytes) zero_ok h =
    (at-all test crockford32 (b % 32) zero_ok h, crockford-all test bytes zero_ok h)
