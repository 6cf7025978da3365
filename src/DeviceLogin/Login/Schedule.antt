-- ===== src/DeviceLogin/Login/Schedule.antt =====
-- When the loop refreshes.
use ozone_oidc_proxy.Base.{
  ℕ, ◌+◌, ◌*◌, ◌/◌, ◌≤◌, ◌<◌, ◌≡◌, arith, ℤ, pos, negsuc, max_int64, lt_ℤ, quotient, if◌then◌else◌,
  ◌≤ℤ◌, inl, inr, Bool-cases, ltb,
}
use ozone_oidc_proxy.Go.Clock.{seconds, seconds_exact, second, plus}
use ozone_oidc_proxy.DeviceLogin.Login.{shortest, refresh_after}

floored : (d low : ℤ) → low ≤ℤ (if lt_ℤ d low then low else d)
floored (pos m) (pos n) = ground arith
floored (pos m) (negsuc n) = ground arith
floored (negsuc m) (pos n) = ground arith
floored (negsuc m) (negsuc n) = ground arith

-- Whatever lifetime the issuer names, the loop waits for 15 seconds at least: it does not spin.
pub shortest_le-refresh_after : (expires_in : ℤ) → shortest ≤ℤ refresh_after expires_in
unfolding refresh_after
shortest_le-refresh_after expires_in =
    floored (quotient (plus (seconds expires_in) (seconds expires_in)) 3) shortest

-- Twice a duration of which the double fits.
plus_exact : (n : ℕ) → n + n ≤ max_int64 → plus (pos n) (pos n) ≡ pos (n + n)
unfolding plus
plus_exact n h = ground arith

-- A token that lives for more than 15 seconds, and for less than 146 years, is refreshed before it
-- expires: at two thirds of its lifetime, but not before 15 seconds.
pub refresh_after_bounds :
    (expires_in : ℕ)
    → 16 ≤ expires_in
    → 2 * (expires_in * second) ≤ max_int64
    → (n : ℕ) × (refresh_after (pos expires_in) ≡ pos n)
      × (15 * second ≤ n)
      × (n < expires_in * second)
      × (2 * (expires_in * second) < 3 * (n + 1))
unfolding refresh_after
refresh_after_bounds expires_in long fits =
    let two = plus_exact (expires_in * second) (omega arith) in
    let one = seconds_exact expires_in (omega arith) in
    let d = (expires_in * second + expires_in * second) / 3 in
    elim (Bool-cases (ltb d (15 * second))) [
      | inl e ↦ (
        15 * second,
        rw (one, two) (ground (arith, e)),
        omega arith,
        omega arith,
        ground (arith, e),
      )
      | inr e ↦ (d, rw (one, two) (ground (arith, e)), ground (arith, e), omega arith, omega arith)
    ]
