-- ===== src/Store/Valkey/Lifetime.antt =====
-- The server keeps a record as long as the proxy needs it.
use ozone_oidc_proxy.Base.{ℕ, ◌+◌, ◌-◌, ◌*◌, ◌/◌, ◌≤◌, ◌<◌, ◌≡◌, refl, arith, pos, max_int64}
use ozone_oidc_proxy.Go.Clock.{Time, add, sub}
use ozone_oidc_proxy.Store.{Credentials}
use ozone_oidc_proxy.Store.Valkey.{Remote, ttl_of, milliseconds}

-- The time to live of a record whose retention is not over is what is left of it, if that is a
-- duration.
pub ttl_of_exact :
    (r : Remote) (retention : ℕ) (now : Time) (c : Credentials)
    → now < c.expires_at + retention
    → c.expires_at + retention - now ≤ max_int64
    → ttl_of r (pos retention) now c ≡ pos (c.expires_at + retention - now)
unfolding ttl_of sub add
ttl_of_exact r retention now c later fits = ground arith

-- A live record is not dropped: with a retention of at least a millisecond, the time to live that the
-- server is told, in whole milliseconds, is positive, ends after the record has expired, and ends
-- less than a millisecond before the retention does.
pub ttl_of_bounds :
    (r : Remote) (retention : ℕ) (now : Time) (c : Credentials)
    → 1000000 ≤ retention
    → now < c.expires_at
    → c.expires_at + retention - now ≤ max_int64
    → (px : ℕ) × (milliseconds (ttl_of r (pos retention) now c) ≡ pos px)
      × (0 < px)
      × (c.expires_at < now + px * 1000000)
      × (now + px * 1000000 ≤ c.expires_at + retention)
      × (c.expires_at + retention < now + px * 1000000 + 1000000)
ttl_of_bounds r retention now c long live fits =
    let exact = ttl_of_exact r retention now c (omega arith) fits in
    let left = c.expires_at + retention - now in
    (left / 1000000, rw exact refl, omega arith, omega arith, omega arith, omega arith)
