-- ===== src/Go/Hex.antt =====
-- encoding/hex.
use ozone_oidc_proxy.Base.{
  ℕ, ◌+◌, ◌-◌, ◌*◌, ◌/◌, ◌%◌, ◌<◌, ◌≡◌, Bool, true, ◌&&◌, ◌||◌, [], ◌∷◌, arith, ltb, leb, ◌==◌,
  if◌then◌else◌, length, all, All,
}
use ozone_oidc_proxy.Text.{Text}

-- The digit of a number below 16; `ten` is the letter of ten.
abbrev pub hex_digit : ℕ → ℕ → ℕ
hex_digit ten n = if ltb n 10 then n + b'0' else n - 10 + ten

abbrev pub is_lower_hex : ℕ → Bool
is_lower_hex c = (leb b'0' c && leb c b'9') || (leb b'a' c && leb c b'f')

abbrev pub is_hex : ℕ → Bool
is_hex c = is_lower_hex c || (leb b'A' c && leb c b'F')

abbrev pub unhex : ℕ → ℕ
unhex c = if leb c b'9' then c - b'0' else if leb c b'F' then c - b'A' + 10 else c - b'a' + 10

-- `hex.EncodeToString`
unfoldable pub encode_hex : Text → Text
encode_hex [] = []
encode_hex (c ∷ s) = hex_digit b'a' (c / 16) ∷ hex_digit b'a' (c % 16) ∷ encode_hex s

abbrev even : ℕ → Bool
even n = n % 2 == 0

-- Whether `hex.DecodeString` accepts the text.
unfoldable pub decodes_hex : Text → Bool
decodes_hex s = even (length s) && all is_hex s

-- Two digits for each byte.
pub length-encode_hex : (s : Text) → length (encode_hex s) ≡ 2 * length s
unfolding encode_hex
length-encode_hex [] = omega arith
length-encode_hex (c ∷ s) = omega (arith, length-encode_hex s)

pub encode_hex-lower :
    (s : Text) → All (λ c. c < 256) s → All (λ c. is_lower_hex c ≡ true) (encode_hex s)
unfolding encode_hex
encode_hex-lower [] h = tt
encode_hex-lower (c ∷ s) (p, h) = (ground arith, (ground arith, encode_hex-lower s h))
