-- ===== src/Sts/Lifetime.antt =====
-- The lifetime of minted credentials.
use ozone_oidc_proxy.Base.{
  ℕ, ◌*◌, ◌≤◌, ◌<◌, ◌≡◌, true, false, arith, ℤ, pos, lt_ℤ, ◌≤ℤ◌, ◌⊎◌, max_int64,
}
use ozone_oidc_proxy.Go.Clock.{Time, sub, add, second, seconds, seconds_exact}
use ozone_oidc_proxy.Config
use ozone_oidc_proxy.Sts.{lifetime}

-- The lifetime is at most what is left of the token and at most the configured maximum.
pub lifetime_le :
    (cfg : Config.Sts) (requested : ℤ) (expiry now : Time)
    → (lifetime cfg requested expiry now ≤ℤ sub expiry now)
      × (lifetime cfg requested expiry now ≤ℤ seconds cfg.max_duration)
unfolding lifetime
lifetime_le cfg requested expiry now = ground arith

-- It is one of its bounds: what is left, the maximum, or the requested duration.
pub lifetime_cases :
    (cfg : Config.Sts) (requested : ℤ) (expiry now : Time)
    → (lifetime cfg requested expiry now ≡ sub expiry now)
      ⊎ ((lifetime cfg requested expiry now ≡ seconds cfg.max_duration)
          ⊎ (lifetime cfg requested expiry now ≡ seconds requested))
unfolding lifetime
lifetime_cases cfg requested expiry now = ground arith

-- A requested positive duration that fits into 64 bits of nanoseconds bounds the lifetime.
pub lifetime_le_requested :
    (cfg : Config.Sts) (n : ℕ) (expiry now : Time)
    → 0 < n
    → n * second ≤ max_int64
    → lifetime cfg (pos n) expiry now ≤ℤ pos (n * second)
unfolding lifetime
lifetime_le_requested cfg n expiry now positive fits = rw (seconds_exact n fits) (ground arith)

pub sub_le : (t u : Time) → lt_ℤ (pos 0) (sub t u) ≡ true → add u (sub t u) ≤ t
unfolding sub add
sub_le t u h = ground arith

-- A requested duration of 9223372037 to 18446744073 seconds wraps around to a negative number of
-- nanoseconds, which makes the lifetime negative, whatever is left of the token.
pub lifetime_wraps :
    (cfg : Config.Sts) (n : ℕ) (expiry now : Time)
    → 9223372037 ≤ n
    → n ≤ 18446744073
    → lt_ℤ (pos 0) (lifetime cfg (pos n) expiry now) ≡ false
unfolding lifetime seconds
lifetime_wraps cfg n expiry now low high = ground arith
