-- ===== src/Go/Clock.antt =====
-- time.Time as nanoseconds from the beginning of the year 0 in UTC, time.Duration as a 64-bit
-- integer of nanoseconds, and the layout 20060102T150405Z for years up to 9999.
pub mod Format
use ozone_oidc_proxy.Base.{
  ℕ, zero, suc, ◌+◌, ◌-◌, ◌*◌, ◌/◌, ◌%◌, ◌≤◌, ◌≡◌, refl, Bool, true, false, ◌&&◌, ◌||◌, not, List,
  [], ◌∷◌, ◌++◌, Option, none, some, arith, ltb, leb, ◌==◌, if◌then◌else◌, ℤ, pos, negsuc, sub_ℕ,
  pos_part, neg_part, max_int64, two_64,
}
use ozone_oidc_proxy.Text.{Text, codes}
use ozone_oidc_proxy.Go.Decimal.{is_digit}

abbrev pub Time : Type 0
Time = ℕ

abbrev pub Duration : Type 0
Duration = ℤ

abbrev pub second : ℕ
second = 1000000000

-- `Time.Sub`, which saturates.
unfoldable pub sub : Time → Time → Duration
sub t u =
    if leb u t
    then (if leb (t - u) max_int64 then pos (t - u) else pos max_int64)
    else if leb (u - t) max_int64
    then sub_ℕ t u
    else negsuc max_int64

-- `Time.Add`
unfoldable pub add : Time → Duration → Time
add t d = t + pos_part d - neg_part d

-- The 64-bit integer with this residue.
abbrev signed : ℕ → ℤ
signed m = if leb m max_int64 then pos m else negsuc (two_64 - 1 - m)

-- `time.Duration(n) * time.Second`, which wraps around.
unfoldable pub seconds : ℤ → Duration
seconds (pos n) = signed (n * second % two_64)
seconds (negsuc n) = signed (two_64 - 1 - (suc n * second - 1) % two_64)

-- A number of seconds that fits is not wrapped.
pub seconds_exact : (n : ℕ) → n * second ≤ max_int64 → seconds (pos n) ≡ pos (n * second)
unfolding seconds
seconds_exact n h = ground arith

-- The residue of a 64-bit integer.
abbrev residue : ℤ → ℕ
residue (pos n) = n % two_64
residue (negsuc n) = two_64 - 1 - n % two_64

-- `d + e`, which wraps around.
unfoldable pub plus : Duration → Duration → Duration
plus d e = signed ((residue d + residue e) % two_64)

is_leap : ℕ → Bool
is_leap y = y % 4 == 0 && (not (y % 100 == 0) || y % 400 == 0)

-- The days of the common year before a month.
abbrev days_before : ℕ → ℕ
days_before m = (367 * m - 362) / 12 - (if leb m 2 then 0 else 2)

days_in : ℕ → ℕ → ℕ
unfolding is_leap
days_in y m =
    if m == 2
    then (if is_leap y then 29 else 28)
    else if m == 4 || m == 6 || m == 9 || m == 11
    then 30
    else 31

-- The days from the first of January of the year 0.
days_from_civil : ℕ → ℕ → ℕ → ℕ
unfolding is_leap
days_from_civil y m d =
    365 * y
    + (y + 3) / 4
    - (y + 99) / 100
    + (y + 399) / 400
    + days_before m
    + (if leb 3 m && is_leap y then 1 else 0)
    + (d - 1)

-- Year, month and day of a day, counted in eras of 400 years that begin in March.
civil_from_days : ℕ → ℕ × ℕ × ℕ
civil_from_days days =
    let z = days + 146097 - 60 in
    let doe = z % 146097 in
    let yoe = (doe - doe / 1460 + doe / 36524 - doe / 146096) / 365 in
    let doy = doe - (365 * yoe + yoe / 4 - yoe / 100) in
    let mp = (5 * doy + 2) / 153 in
    let month = if ltb mp 10 then mp + 3 else mp - 9 in
    (
      yoe + 400 * (z / 146097) - 400 + (if leb month 2 then 1 else 0),
      month,
      doy - (153 * mp + 2) / 5 + 1,
    )

infixl 5 ◌>>=◌
abbrev ◌>>=◌ {ℓ κ} : {A : Type ℓ} {B : Type κ} → Option A → (A → Option B) → Option B
none >>= f = none
some a >>= f = f a

-- A number of exactly `width` digits behind `n`, and the text that follows.
number : ℕ → ℕ → Text → Option (ℕ × Text)
number zero n s = some (n, s)
number (suc width) n [] = none
number (suc width) n (c ∷ s) =
    let rest = number width (n * 10 + (c - b'0')) s in if is_digit c then rest else none

literal : ℕ → Text → Option Text
literal c [] = none
literal c (d ∷ s) = if d == c then some s else none

-- The digits of a fraction of a second: `left` is the worth of the next one.
fraction : ℕ → ℕ → Text → ℕ × Text
fraction left n [] = (n, [])
fraction left n (c ∷ s) =
    let rest = fraction (left / 10) (n + left * (c - b'0')) s in
    if is_digit c then rest else (n, c ∷ s)

-- A fraction that the layout does not name is read all the same.
optional_fraction : Text → ℕ × Text
unfolding fraction
optional_fraction [] = (0, [])
optional_fraction (p ∷ []) = (0, p ∷ [])
optional_fraction (p ∷ c ∷ s) =
    if (p == b'.' || p == b',') && is_digit c then fraction 100000000 0 (c ∷ s) else (0, p ∷ c ∷ s)

abbrev instant : ℕ → ℕ → ℕ → ℕ → Time
instant days hour minute rest = ((days * 24 + hour) * 60 + minute) * 60 * second + rest

abbrev check : Bool → Time → Option Time
check b t = if b then some t else none

abbrev ends : Text → Bool
ends [] = true
ends (c ∷ s) = false

-- `time.Parse("20060102T150405Z", s)`
unfoldable pub parse_amz : Text → Option Time
unfolding number literal optional_fraction days_in days_from_civil
parse_amz s = do
  (year, s) ← number 4 0 s
  (month, s) ← number 2 0 s
  (day, s) ← number 2 0 s
  s ← literal b'T' s
  (hour, s) ← number 2 0 s
  (minute, s) ← number 2 0 s
  (sec, s) ← number 2 0 s
  let frac = optional_fraction s
  s ← literal b'Z' frac.1
  check
      (ends s
        && leb 1 month
        && leb month 12
        && leb 1 day
        && leb day (days_in year month)
        && ltb hour 24
        && ltb minute 60
        && ltb sec 60)
      (instant (days_from_civil year month day) hour minute (sec * second + frac.0))

-- The last `width` digits of a number.
pad : ℕ → ℕ → Text → Text
pad zero n out = out
pad (suc width) n out = pad width (n / 10) ((b'0' + n % 10) ∷ out)

-- `Time.Format("20060102")`
unfoldable pub format_date : Time → Text
unfolding civil_from_days pad
format_date t =
    let (year, month, day) = civil_from_days (t / second / 86400) in
    pad 4 year (pad 2 month (pad 2 day []))

-- `Time.Format("20060102T150405Z")`
unfoldable pub format_amz : Time → Text
unfolding pad
format_amz t =
    let s = t / second in
    format_date t
    ++ (b'T' ∷ pad 2 (s / 3600 % 24) (pad 2 (s / 60 % 60) (pad 2 (s % 60) (b'Z' ∷ []))))

-- `Time.Format(time.RFC3339)`, in UTC
unfoldable pub format_rfc3339 : Time → Text
unfolding civil_from_days pad
format_rfc3339 t =
    let s = t / second in
    let (year, month, day) = civil_from_days (s / 86400) in
    pad 4 year (b'-' ∷ pad 2 month (b'-' ∷ pad 2 day []))
    ++ (b'T'
        ∷ pad 2 (s / 3600 % 24) (b':' ∷ pad 2 (s / 60 % 60) (b':' ∷ pad 2 (s % 60) (b'Z' ∷ []))))

clock_tests :
    (parse_amz (codes "19700101T000000Z") ≡ some (62167219200 * second))
    × (parse_amz (codes "20240229T235959Z") ≡ some (63876470399 * second))
    × (parse_amz (codes "20230229T000000Z") ≡ none)
    × (parse_amz (codes "20240101T000000.5Z") ≡ some (63871286400 * second + 500000000))
    × (format_amz (63876470399 * second) ≡ codes "20240229T235959Z")
    × (format_amz (62167219200 * second) ≡ codes "19700101T000000Z")
    × (format_rfc3339 (63876470399 * second) ≡ codes "2024-02-29T23:59:59Z")
    × (seconds (pos 9223372037) ≡ negsuc 9223372036709551615)
unfolding parse_amz format_amz format_rfc3339 format_date seconds
clock_tests = (refl, refl, refl, refl, refl, refl, refl, refl)
