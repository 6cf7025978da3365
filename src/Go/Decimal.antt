-- ===== src/Go/Decimal.antt =====
-- strconv.Atoi, and decimal digits.
use ozone_oidc_proxy.Base.{
  ℕ, zero, suc, ◌+◌, ◌-◌, ◌*◌, ◌/◌, ◌%◌, ◌≡◌, refl, Bool, ◌&&◌, [], ◌∷◌, Option, none, some, ltb,
  leb, ◌==◌, if◌then◌else◌, is_nil, all, ℤ, pos, negsuc, sub_ℕ, max_int64,
}
use ozone_oidc_proxy.Text.{Text, codes}

abbrev pub is_digit : ℕ → Bool
is_digit c = leb b'0' c && leb c b'9'

-- The number that digits spell behind `n`.
unfoldable pub value : ℕ → Text → ℕ
value n [] = n
value n (c ∷ s) = value (n * 10 + (c - b'0')) s

abbrev number : Text → Option ℕ
number s = if is_nil s then none else if all is_digit s then some (value 0 s) else none

abbrev fit : ℕ → Option ℕ → Option ℤ
fit limit none = none
fit limit (some n) = if leb n limit then some (pos n) else none

abbrev negate : Option ℕ → Option ℤ
negate none = none
negate (some n) = if leb n (max_int64 + 1) then some (sub_ℕ 0 n) else none

-- `strconv.Atoi` at a 64-bit `int`: an optional sign and digits, `none` outside the range.
unfoldable pub atoi : Text → Option ℤ
unfolding value
atoi [] = none
atoi (c ∷ s) =
    if c == b'-'
    then negate (number s)
    else if c == b'+'
    then fit max_int64 (number s)
    else fit max_int64 (number (c ∷ s))

digits_from : ℕ → ℕ → Text → Text
digits_from zero n out = out
digits_from (suc fuel) n out =
    let more = digits_from fuel (n / 10) ((b'0' + n % 10) ∷ out) in
    if ltb n 10 then (b'0' + n) ∷ out else more

-- Decimal digits, as `strconv.FormatInt` writes a number that is not negative.
unfoldable pub decimal : ℕ → Text
unfolding digits_from
decimal n = digits_from (suc n) n []

atoi_tests :
    (atoi (codes "900") ≡ some (pos 900))
    × (atoi (codes "-1") ≡ some (negsuc 0))
    × (atoi (codes "+7") ≡ some (pos 7))
    × (atoi (codes "1x") ≡ none)
    × (atoi (codes "9223372036854775808") ≡ none)
    × (decimal 1024 ≡ codes "1024")
unfolding atoi decimal
atoi_tests = (refl, refl, refl, refl, refl, refl)
