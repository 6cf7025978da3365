-- ===== src/Go/Clock/Format.antt =====
-- A formatted date has eight digits.
use ozone_oidc_proxy.Base.{
  ℕ, zero, suc, ◌+◌, ◌%◌, ◌/◌, ◌≡◌, refl, ap, true, [], ◌∷◌, ◌++◌, arith, length, All, take,
}
use ozone_oidc_proxy.Text.{Text}
use ozone_oidc_proxy.Go.Clock.{Time, pad, civil_from_days, format_date, format_amz, second}
use ozone_oidc_proxy.Go.Decimal.{is_digit}

abbrev pub IsDigits : Text → Type 0
IsDigits = All (λ c. is_digit c ≡ true)

length-pad : (width n : ℕ) (out : Text) → length (pad width n out) ≡ width + length out
unfolding pad
length-pad zero n out = omega arith
length-pad (suc width) n out = omega (arith, length-pad width (n / 10) ((b'0' + n % 10) ∷ out))

pad-IsDigits : (width n : ℕ) (out : Text) → IsDigits out → IsDigits (pad width n out)
unfolding pad
pad-IsDigits zero n out h = h
pad-IsDigits (suc width) n out h =
    pad-IsDigits width (n / 10) ((b'0' + n % 10) ∷ out) (ground arith, h)

pub length-format_date : (t : Time) → length (format_date t) ≡ 8
unfolding format_date
length-format_date t =
    let (year, month, day) = civil_from_days (t / second / 86400) in
    omega (
      arith,
      length-pad 4 year (pad 2 month (pad 2 day [])),
      length-pad 2 month (pad 2 day []),
      length-pad 2 day [],
    )

pub format_date-IsDigits : (t : Time) → IsDigits (format_date t)
unfolding format_date
format_date-IsDigits t =
    let (year, month, day) = civil_from_days (t / second / 86400) in
    pad-IsDigits 4 year (pad 2 month (pad 2 day []))
      (pad-IsDigits 2 month (pad 2 day []) (pad-IsDigits 2 day [] tt))

take-append : (n : ℕ) (s r : Text) → length s ≡ n → take n (s ++ r) ≡ s
take-append zero [] r h = refl
take-append zero (c ∷ s) r h = absurd (omega arith)
take-append (suc n) [] r h = absurd (omega arith)
take-append (suc n) (c ∷ s) r h = ap (◌∷◌ c) (take-append n s r (omega arith))

-- The first eight characters of a formatted instant are its date.
pub take-format_amz : (t : Time) → take 8 (format_amz t) ≡ format_date t
unfolding format_amz
take-format_amz t = take-append 8 (format_date t) _ (length-format_date t)
