-- ===== src/Store/Mint.antt =====
-- `Mint`: fresh credentials from random bytes, which are arguments here.
pub mod Shape
use Prim.Native.Nat.{pred}
use ozone_oidc_proxy.Base.{
  ℕ, ◌+◌, ◌*◌, ◌/◌, ◌%◌, List, [], ◌∷◌, ◌++◌, map, Option, none, some, ltb, ◌==◌, if◌then◌else◌,
}
use ozone_oidc_proxy.Text.{Text, codes}
use ozone_oidc_proxy.Go.Clock.{Time}
use ozone_oidc_proxy.Store.{Credentials}

abbrev pub akid_prefix : Text
akid_prefix = codes "OZPX"

abbrev pub crockford32 : Text
crockford32 = codes "0123456789ABCDEFGHJKMNPQRSTVWXYZ"

-- The byte at a position, 0 past the end.
at : Text → ℕ → ℕ
at [] i = 0
at (c ∷ s) i = let rest = at s (pred i) in if i == 0 then c else rest

-- `randCrockford`, of the bytes that were read.
unfoldable pub crockford : Text → Text
unfolding at
crockford = map (λ b. at crockford32 (b % 32))

abbrev base64_alphabet : Text
base64_alphabet = codes "ABCDEFGHIJKLMNOPQRSTUVWXYZabcdefghijklmnopqrstuvwxyz0123456789-_"

digit64 : ℕ → ℕ
unfolding at
digit64 n = at base64_alphabet (n % 64)

-- `base64.RawURLEncoding.EncodeToString`
unfoldable pub base64url : Text → Text
unfolding digit64
base64url [] = []
base64url (a ∷ []) = digit64 (a / 4) ∷ digit64 (a * 16) ∷ []
base64url (a ∷ b ∷ []) = digit64 (a / 4) ∷ digit64 (a * 16 + b / 16) ∷ digit64 (b * 4) ∷ []
base64url (a ∷ b ∷ c ∷ s) =
    digit64 (a / 4) ∷ digit64 (a * 16 + b / 16) ∷ digit64 (b * 4 + c / 64) ∷ digit64 c ∷ base64url s

-- The three reads of the random source: 16, 30 and 32 bytes, or a failure.
pub record Randomness : Type 0 where
  pub key_bytes : Option Text
  pub secret_bytes : Option Text
  pub token_bytes : Option Text

infixl 5 ◌>>=◌
abbrev ◌>>=◌ {ℓ κ} : {A : Type ℓ} {B : Type κ} → Option A → (A → Option B) → Option B
none >>= f = none
some a >>= f = f a

unfoldable pub mint : Randomness → Text → Text → Time → Option Credentials
mint random username issuer expires_at = do
  key ← random.key_bytes
  secret ← random.secret_bytes
  token ← random.token_bytes
  some (record {
    access_key_id = akid_prefix ++ crockford key;
    secret_access_key = base64url secret;
    session_token = base64url token;
    username = username;
    issuer = issuer;
    expires_at = expires_at;
  })
