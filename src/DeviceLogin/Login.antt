-- ===== src/DeviceLogin/Login.antt =====
-- cmd/ozone-login: signing in, and the loop that keeps the token file fresh. Flags, messages and the
-- exit of the process are left out; the loop is run for a number of rounds.
pub mod Keeps
pub mod Schedule
use ozone_oidc_proxy.Base.{
  ℕ, zero, suc, ◌*◌, ◌/◌, Bool, true, false, List, [], ◌∷◌, Option, none, some, if◌then◌else◌,
  is_nil, ℤ, pos, negsuc, neg, lt_ℤ, quotient, Result, ok, err,
}
use ozone_oidc_proxy.Text.{Text}
use ozone_oidc_proxy.Go.Clock.{Duration, seconds, second, plus}
use ozone_oidc_proxy.DeviceLogin.{
  Client, Endpoints, DeviceAuth, Token, Failure, session_expired, Machine, discover, start, refresh,
}
use ozone_oidc_proxy.DeviceLogin.Poll.{poll}
use ozone_oidc_proxy.DeviceLogin.TokenFile.{Files, Written, write_token_file}

abbrev pub shortest : Duration
shortest = pos (15 * second)

-- `refreshAfter`: two thirds of the lifetime, but not less than 15 seconds.
unfoldable pub refresh_after : ℤ → Duration
refresh_after expires_in =
    let lifetime = seconds expires_in in
    let d = quotient (plus lifetime lifetime) 3 in if lt_ℤ d shortest then shortest else d

-- What the loop remembers.
pub record Session : Type 0 where
  pub refresh_token : Text
  pub expires_in : ℤ

-- How the program ends: interrupted, signed out by the issuer, or by a failure.
pub data Exit : Type 0 where
  stopped signed_out : Exit
  -- the bound on the rounds of the poll has been reached
  out_of_fuel : Exit
  failed : Option Failure → Exit

pub data Next : Type 0 where
  leaves : Exit → Next
  goes_on : Session → Next

-- The lifetime that stands in for an unknown one after a failed refresh.
abbrev pub retry_expires_in : ℤ
retry_expires_in = pos 45

module _ (m : Machine) (fs : Files) (c : Client) (path : Text) where
  open m use {World}

  -- The network and the clock, and the files.
  abbrev pub Both : Type 0
  Both = World × fs.State

  -- The files behind a write, which was begun in these.
  abbrev pub last_of : fs.State → List fs.State → fs.State
  last_of s [] = s
  last_of s (u ∷ seen) = u

  abbrev pub session_of : Token → Text → Session
  session_of tok old = record {
    refresh_token = if is_nil tok.refresh_token then old else tok.refresh_token;
    expires_in = tok.expires_in;
  }

  abbrev pub after_write : World → fs.State → Session → Written fs → Next × Both
  after_write w s session (done, seen) =
      (if done then goes_on session else leaves (failed none), (w, last_of s seen))

  -- A session that has expired ends the program, any other failure is tried again.
  abbrev pub after_failure : Session → Failure → Next
  after_failure session session_expired = leaves signed_out
  after_failure session e = goes_on (record session { expires_in = retry_expires_in })

  -- What follows a refresh.
  abbrev pub after_refresh : Session → fs.State → Result Failure Token × World → Next × Both
  after_refresh session s (err e, w) = (after_failure session e, (w, s))
  after_refresh session s (ok tok, w) =
      after_write w s (session_of tok session.refresh_token)
        (write_token_file fs s path tok.access_token)

  -- One round of the loop.
  unfoldable pub login_round : Endpoints → Session → Both → Next × Both
  login_round ep session (w, s) =
      let (interrupted, w') = m.wait w (refresh_after session.expires_in) in
      let behind = after_refresh session s (refresh m c w' ep session.refresh_token) in
      if interrupted then (leaves stopped, (w', s)) else behind

  -- What follows a round.
  abbrev pub carry_on : (Session → Both → Next × Both) → Next × Both → Next × Both
  carry_on rest (leaves e, b) = (leaves e, b)
  carry_on rest (goes_on session, b) = rest session b

  unfoldable pub login_rounds : ℕ → Endpoints → Session → Both → Next × Both
  login_rounds zero ep session b = (goes_on session, b)
  login_rounds (suc n) ep session b =
      carry_on (λ next b'. login_rounds n ep next b') (login_round ep session b)

  -- What follows the poll: the first token is written, and the loop begins.
  abbrev pub after_poll :
      ℕ → fs.State → Endpoints → Option (Result Failure Token) × World → Next × Both
  after_poll rounds s ep (none, w) = (leaves out_of_fuel, (w, s))
  after_poll rounds s ep (some (err e), w) = (leaves (failed (some e)), (w, s))
  after_poll rounds s ep (some (ok tok), w) = carry_on (login_rounds rounds ep) (
      after_write w s (record { refresh_token = tok.refresh_token; expires_in = tok.expires_in })
        (write_token_file fs s path tok.access_token))

  abbrev pub after_start :
      ℕ → ℕ → fs.State → Endpoints → Result Failure DeviceAuth × World → Next × Both
  after_start fuel rounds s ep (err e, w) = (leaves (failed (some e)), (w, s))
  after_start fuel rounds s ep (ok da, w) = after_poll rounds s ep (poll m c ep da fuel w)

  abbrev pub after_discover : ℕ → ℕ → fs.State → Result Failure Endpoints × World → Next × Both
  after_discover fuel rounds s (err e, w) = (leaves (failed (some e)), (w, s))
  after_discover fuel rounds s (ok ep, w) = after_start fuel rounds s ep (start m c w ep)

  -- The program with this bound on the rounds of the poll, and with so many rounds of the loop:
  -- with none of them it is `-once`.
  unfoldable pub ozone_login : ℕ → ℕ → Both → Next × Both
  ozone_login fuel rounds (w, s) = after_discover fuel rounds s (discover m c w)
