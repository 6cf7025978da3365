-- ===== src/Sts/Wrap.antt =====
-- A duration that is too long for 64 bits of nanoseconds.
use ozone_oidc_proxy.Base.{ℕ, ◌≡◌, ◌≤◌, err, pos}
use ozone_oidc_proxy.Go.Clock.{Time}
use ozone_oidc_proxy.Config
use ozone_oidc_proxy.Oidc.{Identity}
use ozone_oidc_proxy.Store.{Store}
use ozone_oidc_proxy.Store.Mint.{Randomness}
use ozone_oidc_proxy.Sts.{Grant, issue, expired_token}
use ozone_oidc_proxy.Sts.Lifetime.{lifetime_wraps}

-- Minting for a grant that asks for 9223372037 to 18446744073 seconds is refused with
-- ExpiredToken, however long the token is still valid: the conversion to nanoseconds wraps
-- around.
pub issue-wraps :
    (st : Store) (cfg : Config.Sts) (g : Grant) (i : Identity) (random : Randomness) (now : Time)
    (s : st.State) (n : ℕ)
    → g.requested ≡ pos n
    → 9223372037 ≤ n
    → n ≤ 18446744073
    → issue st cfg g i random now s
      ≡ err (record { status = 400; code = expired_token; issuer = i.issuer_name })
unfolding issue
issue-wraps st cfg g i random now s n asked low high =
    rw (asked, lifetime_wraps cfg n i.expiry now low high)
