-- ===== src/DeviceLogin/Poll.antt =====
-- `Client.Poll`: waiting for the user's approval. A round of the loop ends it or asks for another one
-- with an interval; the loop runs on fuel, and Poll/Terminates shows how much is enough.
pub mod Rounds
pub mod Terminates
use ozone_oidc_proxy.Base.{
  ℕ, zero, suc, ◌*◌, Bool, true, false, List, [], ◌∷◌, Option, none, some, if◌then◌else◌, is_nil,
  ltb, ℤ, pos, lt_ℤ, Result, ok, err, ◌&&◌,
}
use ozone_oidc_proxy.Text.{Text, codes, text_eq}
use ozone_oidc_proxy.Go.Clock.{Time, Duration, add, seconds, second, plus}
use ozone_oidc_proxy.Go.Query.{Values}
use ozone_oidc_proxy.DeviceLogin.{
  Client, Endpoints, DeviceAuth, Token, OauthError, Failure, oauth, missing, cancelled,
  access_denied, expired, Machine, Call, post_form,
}

abbrev pub device_code_grant : Text
device_code_grant = codes "urn:ietf:params:oauth:grant-type:device_code"

abbrev pub poll_form : Client → DeviceAuth → Values
poll_form c da =
    (codes "client_id", c.client_id)
    ∷ (codes "device_code", da.device_code)
    ∷ (codes "grant_type", device_code_grant)
    ∷ []

-- `max(da.Interval, 1)` seconds
abbrev pub first_interval : DeviceAuth → Duration
first_interval da = seconds (if lt_ℤ (pos 1) da.interval then da.interval else pos 1)

abbrev pub slow_down : Duration
slow_down = pos (5 * second)

-- How a round ends: the call returns, or another round follows with this interval.
pub data Turn : Type 0 where
  returns : Result Failure Token → Turn
  again : Duration → Turn

-- The `switch` on the code of an OAuth error.
unfoldable pub oauth_turn : OauthError → Duration → Turn
oauth_turn e interval =
    if text_eq e.code (codes "authorization_pending")
    then again interval
    else if text_eq e.code (codes "slow_down")
    then again (plus interval slow_down)
    else if text_eq e.code (codes "access_denied")
    then returns (err access_denied)
    else if text_eq e.code (codes "expired_token")
    then returns (err expired)
    else returns (err (oauth e))

-- What follows the answer of the token endpoint.
unfoldable pub answer_turn : Result Failure Token → Duration → Turn
answer_turn (ok tok) interval =
    if is_nil tok.access_token then returns (err missing) else returns (ok tok)
answer_turn (err (oauth e)) interval = oauth_turn e interval
answer_turn (err e) interval = returns (err e)

module _ (m : Machine) (c : Client) (ep : Endpoints) (da : DeviceAuth) where
  open m use {World}

  abbrev answered : Duration → Call m Token → Turn × World
  answered interval (answer, w) = (answer_turn answer interval, w)

  -- The request of a round, behind the wait.
  abbrev pub asked : World → Duration → Turn × World
  asked w interval =
      answered interval (post_form m m.decode_token (m.sleep w interval) ep.token (poll_form c da))

  -- One round of the loop.
  unfoldable pub round : Time → World → Duration → Turn × World
  round deadline w interval =
      if m.is_cancelled w
      then (returns (err cancelled), w)
      else if lt_ℤ (pos 0) da.expires_in && ltb deadline (m.now w)
      then (returns (err expired), w)
      else asked w interval

  -- The loop; `none` where the fuel is out.
  unfoldable pub poll_from : ℕ → Time → World → Duration → Option (Result Failure Token) × World
  poll_from zero deadline w interval = (none, w)
  poll_from (suc fuel) deadline w interval = elim (round deadline w interval).0 [
    | returns r ↦ (some r, (round deadline w interval).1)
    | again next ↦ poll_from fuel deadline (round deadline w interval).1 next
  ]

  abbrev pub deadline_of : World → Time
  deadline_of w = add (m.now w) (seconds da.expires_in)

  -- `Client.Poll`
  unfoldable pub poll : ℕ → World → Option (Result Failure Token) × World
  poll fuel w = poll_from fuel (deadline_of w) w (first_interval da)
