-- ===== src/DeviceLogin/Login/Keeps.antt =====
-- cmd/ozone-login/main.go: what the token file and the session hold while the loop runs.
use ozone_oidc_proxy.DeviceLogin.{
  session_expired, transport, status, unreadable, oauth, missing, cancelled, access_denied, expired,
}
use ozone_oidc_proxy.Base.{
  ◌≢◌, ◌⊎◌, Bool, ap, pos, if◌then◌else◌, ℕ, zero, suc, ◌≡◌, refl, inl, inr, true, false,
  Bool-cases, [], ◌∷◌, Option, none, some, is_nil, subst, Result, ok, err,
}
use ozone_oidc_proxy.Text.{Text}
use ozone_oidc_proxy.DeviceLogin.{
  Client, Endpoints, DeviceAuth, Token, Failure, Machine, Call, refreshed, refresh, start, discover,
}
use ozone_oidc_proxy.DeviceLogin.TokenFile.{Files, private_mode, Written, write_token_file}
use ozone_oidc_proxy.DeviceLogin.TokenFile.Atomic.{IsFiles, IsAtomic, write_token_file-IsAtomic}
use ozone_oidc_proxy.DeviceLogin.Poll.{poll}
use ozone_oidc_proxy.DeviceLogin.Poll.Terminates.{poll-IsPolled}
use ozone_oidc_proxy.DeviceLogin.Login.{
  refresh_after, Session, Next, leaves, goes_on, Both, after_write, after_refresh, after_failure,
  signed_out, login_round, carry_on, login_rounds, after_poll, after_start, after_discover,
  ozone_login, session_of,
}

-- What a running program remembers: its session, the token that the issuer has answered last, and the
-- network.
pub record Point (m : Machine) : Type 0 where
  pub session : Session
  pub token : Token
  pub world : m.World

-- The refreshes between two points. Each waits as long as the lifetime of the last token asks for, and
-- sends the refresh token that was given last. One that is answered renews the token; one that fails,
-- but for the end of the session, leaves it and is tried again.
pub data Refreshes (m : Machine) (c : Client) (ep : Endpoints) : Point m → Point m → Type 0 where
  none_yet : {x : Point m} → Refreshes m c ep x x
  renewed :
      {x y : Point m} (w : m.World) (tok : Token) (w' : m.World)
      → m.wait x.world (refresh_after x.session.expires_in) ≡ (false, w)
      → refresh m c w ep x.session.refresh_token ≡ (ok tok, w')
      → Refreshes m c ep
          (record {
            session = record {
              refresh_token =
                  if is_nil tok.refresh_token then x.session.refresh_token else tok.refresh_token;
              expires_in = tok.expires_in;
            };
            token = tok;
            world = w';
          })
          y
      → Refreshes m c ep x y
  retried :
      {x y : Point m} (w : m.World) (e : Failure) (w' : m.World)
      → m.wait x.world (refresh_after x.session.expires_in) ≡ (false, w)
      → refresh m c w ep x.session.refresh_token ≡ (err e, w')
      → e ≢ session_expired
      → Refreshes m c ep
          (record x { session = record x.session { expires_in = pos 45 }; world = w' })
          y
      → Refreshes m c ep x y

-- The file holds exactly this access token, which is not empty, readable by its owner only.
pub record Holds (fs : Files) (path : Text) (s : fs.State) (tok : Token) : Type 0 where
  pub held : fs.look s path ≡ some (private_mode, tok.access_token)
  pub given : is_nil tok.access_token ≡ false

goes_on_injective : (x y : Session) → goes_on x ≡ goes_on y → x ≡ y
goes_on_injective x y h = cc

module _ (m : Machine) where
  refreshed-whole :
      (r : Call m Token) (tok : Token)
      → (refreshed m r).0 ≡ ok tok
      → is_nil tok.access_token ≡ false
  refreshed-whole (err e, w) tok h = cc
  refreshed-whole (ok t, w) tok h = elim (Bool-cases (is_nil t.access_token)) [
    | inl e ↦ cc (rw e at h)
    | inr e ↦
        let same : t ≡ tok = cc (rw e at h) in subst (λ u. is_nil u.access_token ≡ false) same e
  ]

  refresh-whole :
      (c : Client) (w : m.World) (ep : Endpoints) (old : Text) (tok : Token)
      → (refresh m c w ep old).0 ≡ ok tok
      → is_nil tok.access_token ≡ false
  unfolding refresh
  refresh-whole c w ep old tok h = refreshed-whole _ tok h

module _ (m : Machine) (fs : Files) (c : Client) (path : Text) (laws : IsFiles fs)
    (proper : fs.is_temp path ≡ false) where
  open m use {World}

  -- Where the loop is, from this point on, after rounds behind which it goes on.
  pub record IsKept (ep : Endpoints) (x : Point m) (last : Session) (b : Both m fs c path)
      : Type 0 where
    pub token : Token
    pub refreshes : Refreshes m c ep x (record { session = last; token = token; world = b.0 })
    pub holds : Holds fs path b.1 token

  -- What has to hold of a step's outcome, in order that the rest keeps the file.
  abbrev Kept : Endpoints → Point m → Next × Both m fs c path → Type 0
  Kept ep x r = (last : Session) → r.0 ≡ goes_on last → IsKept ep x last r.1

  -- A write behind which the program goes on has left the token in the file.
  write-Kept :
      (ep : Endpoints) (x : Point m) (w : World) (s : fs.State) (session : Session) (tok : Token)
      (r : Written fs) (rest : Session → Both m fs c path → Next × Both m fs c path)
      → is_nil tok.access_token ≡ false
      → IsAtomic fs path tok.access_token (fs.look s path) r
      → ((u : fs.State) → Holds fs path u tok → Kept ep x (rest session (w, u)))
      → Kept ep x (carry_on m fs c path rest (after_write m fs c path w s session r))
  write-Kept ep x w s session tok (true, u ∷ seen) rest given (e, es) ih =
      ih u (record { held = e; given = given })
  write-Kept ep x w s session tok (false, seen) rest given es ih = λ last h. cc
  write-Kept ep x w s session tok (true, []) rest given absurd ih = elim absurd [ ]

  before-renewed :
      (ep : Endpoints) (x : Point m) (w : World) (tok : Token) (w' : World)
      (r : Next × Both m fs c path)
      → m.wait x.world (refresh_after x.session.expires_in) ≡ (false, w)
      → refresh m c w ep x.session.refresh_token ≡ (ok tok, w')
      → Kept ep
          (record {
            session = session_of m fs c path tok x.session.refresh_token;
            token = tok;
            world = w';
          })
          r
      → Kept ep x r
  before-renewed ep x w tok w' r waited answered kept = λ last h.
      let rest = kept last h in
      record {
        token = rest.token;
        refreshes = renewed w tok w' waited answered rest.refreshes;
        holds = rest.holds;
      }

  before-retried :
      (ep : Endpoints) (x : Point m) (w : World) (e : Failure) (w' : World)
      (r : Next × Both m fs c path)
      → m.wait x.world (refresh_after x.session.expires_in) ≡ (false, w)
      → refresh m c w ep x.session.refresh_token ≡ (err e, w')
      → e ≢ session_expired
      → Kept ep (record x { session = record x.session { expires_in = pos 45 }; world = w' }) r
      → Kept ep x r
  before-retried ep x w e w' r waited answered lasting kept = λ last h.
      let rest = kept last h in
      record {
        token = rest.token;
        refreshes = retried w e w' waited answered lasting rest.refreshes;
        holds = rest.holds;
      }

  failure-cases :
      (session : Session) (e : Failure)
      → ((e ≢ session_expired)
          × (after_failure m fs c path session e
              ≡ goes_on (record session { expires_in = pos 45 })))
        ⊎ (after_failure m fs c path session e ≡ leaves signed_out)
  failure-cases session session_expired = inr refl
  failure-cases session transport = inl (cc, refl)
  failure-cases session (status n) = inl (cc, refl)
  failure-cases session unreadable = inl (cc, refl)
  failure-cases session (oauth e) = inl (cc, refl)
  failure-cases session missing = inl (cc, refl)
  failure-cases session cancelled = inl (cc, refl)
  failure-cases session access_denied = inl (cc, refl)
  failure-cases session expired = inl (cc, refl)

  -- What follows the wait of a round.
  waited-Kept :
      (ep : Endpoints) (x : Point m) (s : fs.State) (w : World)
      (rest : Session → Both m fs c path → Next × Both m fs c path)
      → m.wait x.world (refresh_after x.session.expires_in) ≡ (false, w)
      → Holds fs path s x.token
      → ((y : Point m) (u : fs.State)
          → Holds fs path u y.token
          → Kept ep y (rest y.session (y.world, u)))
      → Kept ep x (
          carry_on m fs c path rest
            (after_refresh m fs c path x.session s (refresh m c w ep x.session.refresh_token)))
  waited-Kept ep x s w rest waited holds ih = split (refresh m c w ep x.session.refresh_token) refl
    where
      split :
          (r : Call m Token)
          → refresh m c w ep x.session.refresh_token ≡ r
          → Kept ep x (carry_on m fs c path rest (after_refresh m fs c path x.session s r))
      split (ok tok, w') answered =
          let session = session_of m fs c path tok x.session.refresh_token in
          before-renewed ep x w tok w' _ waited answered (
            write-Kept ep (record { session = session; token = tok; world = w' }) w' s session tok
              (write_token_file fs s path tok.access_token) rest
              (refresh-whole m c w ep x.session.refresh_token tok
                (ap (λ (z : Call m Token). z.0) answered))
              (write_token_file-IsAtomic fs path tok.access_token s laws proper)
              (λ u. ih (record { session = session; token = tok; world = w' }) u))
      split (err e, w') answered = elim (failure-cases x.session e) [
        | inr ends ↦ rw ends (λ last h. cc)
        | inl (lasting, goes) ↦ before-retried ep x w e w' _ waited answered lasting (
            rw goes (
              ih (record x { session = record x.session { expires_in = pos 45 }; world = w' }) s
                holds))
      ]

  rounds-Kept :
      (n : ℕ) (ep : Endpoints) (x : Point m) (s : fs.State)
      → Holds fs path s x.token
      → Kept ep x (login_rounds m fs c path n ep x.session (x.world, s))
  unfolding login_rounds login_round
  rounds-Kept zero ep x s holds = λ last h. record {
    token = x.token;
    refreshes =
        subst
          (λ session.
            Refreshes m c ep x (record { session = session; token = x.token; world = x.world }))
          (goes_on_injective x.session last h) none_yet;
    holds = holds;
  }
  rounds-Kept (suc n) ep x s holds =
      split (m.wait x.world (refresh_after x.session.expires_in)) refl (λ y u. rounds-Kept n ep y u)
    where
      split :
          (v : Bool × World)
          → m.wait x.world (refresh_after x.session.expires_in) ≡ v
          → ((y : Point m) (u : fs.State)
              → Holds fs path u y.token
              → Kept ep y (login_rounds m fs c path n ep y.session (y.world, u)))
          → Kept ep x (login_rounds m fs c path (suc n) ep x.session (x.world, s))
      split (true, w) waited ih = rw (waited, login_rounds, login_round) (λ last h. cc)
      split (false, w) waited ih =
          rw (waited, login_rounds, login_round)
            (waited-Kept ep x s w (λ next b. login_rounds m fs c path n ep next b) waited holds ih)

  -- A program that is still running has been granted a token by the poll, and has refreshed it since as
  -- often as the issuer has answered a refresh.
  pub record IsRunning (fuel : ℕ) (w : World) (last : Session) (b : Both m fs c path) : Type 0 where
    pub endpoints : Endpoints
    pub discovered : World
    pub found : discover m c w ≡ (ok endpoints, discovered)
    pub device : DeviceAuth
    pub started : World
    pub began : start m c discovered endpoints ≡ (ok device, started)
    pub first : Token
    pub polled : World
    pub granted : poll m c endpoints device fuel started ≡ (some (ok first), polled)
    pub kept :
        IsKept endpoints
          (record {
            session = record { refresh_token = first.refresh_token; expires_in = first.expires_in };
            token = first;
            world = polled;
          })
          last
          b

  after_poll-Kept :
      (rounds : ℕ) (s : fs.State) (ep : Endpoints) (w : World) (tok : Token)
      → is_nil tok.access_token ≡ false
      → Kept ep
          (record {
            session = record { refresh_token = tok.refresh_token; expires_in = tok.expires_in };
            token = tok;
            world = w;
          })
          (after_poll m fs c path rounds s ep (some (ok tok), w))
  after_poll-Kept rounds s ep w tok given =
      let session : Session = record {
        refresh_token = tok.refresh_token;
        expires_in = tok.expires_in;
      } in
      let x : Point m = record { session = session; token = tok; world = w } in
      write-Kept ep x w s session tok (write_token_file fs s path tok.access_token)
        (login_rounds m fs c path rounds ep) given
        (write_token_file-IsAtomic fs path tok.access_token s laws proper)
        (λ u. rounds-Kept rounds ep x u)

-- A program that is still running, whatever the file held at first, holds in the file, with mode 0600,
-- exactly the access token that the issuer has answered last: with the first token, which the poll of
-- the discovered endpoints was granted, or with the last refresh that was answered. Every refresh
-- waited as long as `refresh_after` asks for and sent the refresh token that was given last; those that
-- failed have left the file as it was. The token is not empty.
pub ozone_login-IsRunning :
    (m : Machine) (fs : Files) (c : Client) (path : Text)
    → (laws : IsFiles fs) → (proper : fs.is_temp path ≡ false)
    → (fuel rounds : ℕ) (w : m.World) (s : fs.State) (last : Session)
    → (ozone_login m fs c path fuel rounds (w, s)).0 ≡ goes_on last
    → IsRunning m fs c path laws proper fuel w last (ozone_login m fs c path fuel rounds (w, s)).1
unfolding ozone_login
ozone_login-IsRunning m fs c path laws proper fuel rounds w s last h =
    discovering (discover m c w) refl h
  where
    polling :
        (ep : Endpoints) (v : m.World) (da : DeviceAuth) (u : m.World)
        → discover m c w ≡ (ok ep, v)
        → start m c v ep ≡ (ok da, u)
        → (r : Option (Result Failure Token) × m.World) → poll m c ep da fuel u ≡ r
        → (after_poll m fs c path rounds s ep r).0 ≡ goes_on last
        → IsRunning m fs c path laws proper fuel w last (after_poll m fs c path rounds s ep r).1
    polling ep v da u found began (none, z) polled k = cc
    polling ep v da u found began (some (err e), z) polled k = cc
    polling ep v da u found began (some (ok tok), z) polled k =
        let given =
          (poll-IsPolled m c ep da fuel u tok
            (ap (λ (x : Option (Result Failure Token) × m.World). x.0) polled)).granted.has_token in
        record {
          endpoints = ep;
          discovered = v;
          found = found;
          device = da;
          started = u;
          began = began;
          first = tok;
          polled = z;
          granted = polled;
          kept = after_poll-Kept m fs c path laws proper rounds s ep z tok given last k;
        }

    starting :
        (ep : Endpoints) (v : m.World)
        → discover m c w ≡ (ok ep, v)
        → (r : Call m DeviceAuth) → start m c v ep ≡ r
        → (after_start m fs c path fuel rounds s ep r).0 ≡ goes_on last
        → IsRunning m fs c path laws proper fuel w last
            (after_start m fs c path fuel rounds s ep r).1
    starting ep v found (err e, u) began k = cc
    starting ep v found (ok da, u) began k =
        polling ep v da u found began (poll m c ep da fuel u) refl k

    discovering :
        (r : Call m Endpoints)
        → discover m c w ≡ r
        → (after_discover m fs c path fuel rounds s r).0 ≡ goes_on last
        → IsRunning m fs c path laws proper fuel w last
            (after_discover m fs c path fuel rounds s r).1
    discovering (err e, v) found k = cc
    discovering (ok ep, v) found k = starting ep v found (start m c v ep) refl k
