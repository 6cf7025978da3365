-- ===== src/Examples/Devices.antt =====
-- Runs of the device login: a toy token endpoint, a toy clock, and files as a function of the path.
use ozone_oidc_proxy.Base.{
  ℕ, ◌+◌, ◌*◌, ◌≤◌, ◌<◌, ◌≡◌, ◌≢◌, refl, sym, true, false, [], ◌++◌, Option, none, some, arith,
  if◌then◌else◌, ltb, pos, pos_part, Result, ok,
}
use ozone_oidc_proxy.Text.{Text, codes, text_eq}
use ozone_oidc_proxy.Text.Equality.{text_eq_refl, text_eq_ne}
use ozone_oidc_proxy.Go.Clock.{second, seconds, add, plus}
use ozone_oidc_proxy.DeviceLogin.{
  Client, Endpoints, DeviceAuth, Token, Failure, Machine, discover, start, refresh, post_form,
  trim_slash,
}
use ozone_oidc_proxy.DeviceLogin.Poll.{
  poll, poll_from, round, answer_turn, oauth_turn, deadline_of, first_interval,
}
use ozone_oidc_proxy.DeviceLogin.Poll.Rounds.{IsPolled}
use ozone_oidc_proxy.DeviceLogin.Poll.Terminates.{IsClock, poll-returns, poll-IsPolled}
use ozone_oidc_proxy.DeviceLogin.TokenFile.{Files, private_mode, write_token_file}
use ozone_oidc_proxy.DeviceLogin.TokenFile.Atomic.{IsFiles, IsAtomic, write_token_file-IsAtomic}
use ozone_oidc_proxy.DeviceLogin.Login.{
  refresh_after, Session, goes_on, login_round, login_rounds, ozone_login,
}
use ozone_oidc_proxy.DeviceLogin.Login.Keeps.{IsRunning, ozone_login-IsRunning}
use ozone_oidc_proxy.DeviceLogin.Login.Schedule.{refresh_after_bounds}

abbrev client : Client
client = record {
  issuer = codes "https://idp";
  client_id = codes "ozone-s3";
  scope = codes "openid";
}

abbrev endpoints : Endpoints
endpoints = record { device_authorization = codes "d"; token = codes "t" }

abbrev device_auth : DeviceAuth
device_auth = record {
  device_code = codes "code";
  user_code = codes "WXYZ";
  verification_uri = codes "https://idp/device";
  verification_uri_complete = [];
  expires_in = pos 60;
  interval = pos 5;
}

abbrev token : Token
token = record {
  access_token = codes "access";
  refresh_token = codes "refresh";
  expires_in = pos 60;
}

-- The user approves in the twelfth second: until then the token endpoint answers that the
-- authorization is pending.
abbrev answer_at : ℕ → Text → ℕ × Text
answer_at w url =
    if text_eq url (codes "t")
    then (if ltb w (12 * second) then (400, codes "authorization_pending") else (200, []))
    else (200, [])

-- The world is the time in nanoseconds; only waiting takes time.
abbrev machine : Machine
machine = record {
  World = ℕ;
  http_get = λ w url. (some (200, []), w);
  http_post = λ w url form. (some (answer_at w url), w);
  now = λ w. w;
  sleep = λ w d. w + pos_part d;
  wait = λ w d. (false, w + pos_part d);
  is_cancelled = λ w. false;
  decode_endpoints = λ s. some endpoints;
  decode_device_auth = λ s. some device_auth;
  decode_token = λ s. some token;
  decode_error = λ s. some (record { code = s; description = [] });
}

machine-IsClock : IsClock machine
machine-IsClock = record {
  now-sleep = λ w n. omega arith;
  now-http_post = λ w url form. omega arith;
}

poll-returns_example :
    (r : Result Failure Token) × ((poll machine client endpoints device_auth 62 0).0 ≡ some r)
poll-returns_example =
    poll-returns machine client endpoints device_auth 0 60 machine-IsClock refl (omega arith)
      (omega arith) (omega arith)

approved : (poll machine client endpoints device_auth 62 0).0 ≡ some (ok token)
unfolding poll poll_from round seconds add text_eq post_form answer_turn oauth_turn
approved = refl

poll-IsPolled_example :
    IsPolled machine client endpoints device_auth
      (deadline_of machine client endpoints device_auth 0)
      0
      (first_interval device_auth)
      token
poll-IsPolled_example = poll-IsPolled machine client endpoints device_auth 62 0 token approved

-- The files at each path: mode and content.
abbrev Disk : Type 0
Disk = Text → Option (ℕ × Text)

abbrev update : Disk → Text → Option (ℕ × Text) → Disk
update s f v = λ p. if text_eq f p then v else s p

abbrev with_mode : ℕ → Option (ℕ × Text) → Option (ℕ × Text)
with_mode mode none = none
with_mode mode (some (old, text)) = some (mode, text)

abbrev with_text : Text → Option (ℕ × Text) → Option (ℕ × Text)
with_text more none = none
with_text more (some (mode, text)) = some (mode, text ++ more)

abbrev temp : Text
temp = codes ".token-1"

abbrev files : Files
files = record {
  State = Disk;
  look = λ s path. s path;
  dir_of = λ path. codes ".";
  is_temp = λ path. text_eq temp path;
  mkdir_all = λ s dir. (true, s);
  create_temp = λ s dir. (some temp, update s temp (some (private_mode, [])));
  chmod = λ s f mode. (true, update s f (with_mode mode (s f)));
  write_string = λ s f text. (true, update s f (with_text text (s f)));
  close = λ s f. (true, s);
  rename = λ s from to. (true, update (update s from none) to (s from));
  remove = λ s f. update s f none;
}

update_other :
    (s : Disk) (f path : Text) (v : Option (ℕ × Text)) → path ≢ f → update s f v path ≡ s path
update_other s f path v apart = rw (text_eq_ne f path (λ e. apart (sym e))) refl

update_self : (s : Disk) (f : Text) (v : Option (ℕ × Text)) → update s f v f ≡ v
update_self s f v = rw (text_eq_refl f) refl

files-IsFiles : IsFiles files
files-IsFiles = record {
  look-mkdir_all = λ s dir path. refl;
  is_temp-create_temp =
      λ s dir tmp e. let same : temp ≡ tmp = cc e in rw (← same) (text_eq_refl temp);
  look-create_temp = λ s dir path proper. rw proper refl;
  look-create_temp_self = λ s dir tmp e.
      let same : temp ≡ tmp = cc e in
      rw (← same) (private_mode, update_self s temp (some (private_mode, [])));
  look-chmod = λ s f path mode apart. update_other s f path (with_mode mode (s f)) apart;
  look-chmod_self = λ s f mode old text e done. rw (text_eq_refl f, e) refl;
  look-write_string = λ s f path text apart. update_other s f path (with_text text (s f)) apart;
  look-write_string_self = λ s f text mode e done. rw (text_eq_refl f, e) refl;
  look-close = λ s f path. refl;
  look-rename_failed = λ s from to path failed. cc;
  look-rename_self = λ s from to done. update_self (update s from none) to (s from);
  look-remove = λ s f path apart. update_other s f path none apart;
}

abbrev token_path : Text
token_path = codes "token.jwt"

abbrev no_files : Disk
no_files = λ path. none

token_path-proper : files.is_temp token_path ≡ false
unfolding text_eq
token_path-proper = refl

write_token_file-IsAtomic_example :
    IsAtomic files token_path
      (codes "access")
      none
      (write_token_file files no_files token_path (codes "access"))
write_token_file-IsAtomic_example =
    write_token_file-IsAtomic files token_path (codes "access") no_files files-IsFiles
      token_path-proper

-- The state behind the sign-in and one round of the loop.
abbrev session : Session
session = record { refresh_token = codes "refresh"; expires_in = pos 60 }

signed_in : (ozone_login machine files client token_path 62 1 (0, no_files)).0 ≡ goes_on session
unfolding ozone_login discover start post_form poll poll_from round answer_turn oauth_turn seconds
    add plus text_eq write_token_file refresh_after trim_slash login_rounds login_round refresh
signed_in = refl

ozone_login-IsRunning_example :
    IsRunning machine files client token_path files-IsFiles token_path-proper 62 0 session
      (ozone_login machine files client token_path 62 1 (0, no_files)).1
ozone_login-IsRunning_example =
    ozone_login-IsRunning machine files client token_path files-IsFiles token_path-proper 62 1 0
      no_files session signed_in

refresh_after_bounds_example :
    (n : ℕ) × (refresh_after (pos 300) ≡ pos n)
    × (15 * second ≤ n)
    × (n < 300 * second)
    × (2 * (300 * second) < 3 * (n + 1))
refresh_after_bounds_example = refresh_after_bounds 300 (omega arith) (omega arith)
