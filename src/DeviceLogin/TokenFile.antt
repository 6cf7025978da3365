-- ===== src/DeviceLogin/TokenFile.antt =====
-- `WriteTokenFile`: a temporary file is written and then renamed. The file system is a parameter; the
-- states between the calls, which other processes see, are kept, the latest one first.
pub mod Atomic
use ozone_oidc_proxy.Base.{ℕ, Bool, true, false, List, [], ◌∷◌, Option, none, some}
use ozone_oidc_proxy.Text.{Text}

pub record Files : Type 1 where
  pub State : Type 0
  -- mode and content of the file at a path
  pub look : State → Text → Option (ℕ × Text)
  pub dir_of : Text → Text
  -- whether `os.CreateTemp` may use the name for the pattern `.token-*`
  pub is_temp : Text → Bool
  pub mkdir_all : State → Text → Bool × State
  pub create_temp : State → Text → Option Text × State
  pub chmod : State → Text → ℕ → Bool × State
  pub write_string : State → Text → Text → Bool × State
  pub close : State → Text → Bool × State
  pub rename : State → Text → Text → Bool × State
  pub remove : State → Text → State

-- 0600
abbrev pub private_mode : ℕ
private_mode = 384

module _ (fs : Files) where
  open fs use {State}

  -- Whether the file was written, and the states that have been seen.
  abbrev pub Written : Type 0
  Written = Bool × List State

  -- The deferred `os.Remove`.
  abbrev pub removed : Bool → Text → State → List State → Written
  removed done tmp s seen = (done, fs.remove s tmp ∷ s ∷ seen)

  abbrev pub renamed : Text → List State → Bool × State → Written
  renamed tmp seen (done, s) = removed done tmp s seen

  abbrev pub closed : Text → Text → List State → Bool × State → Written
  closed path tmp seen (false, s) = removed false tmp s seen
  closed path tmp seen (true, s) = renamed tmp (s ∷ seen) (fs.rename s tmp path)

  -- A failure closes the file.
  abbrev pub given_up : Text → State → List State → Written
  given_up tmp s seen = removed false tmp (fs.close s tmp).1 (s ∷ seen)

  abbrev pub wrote : Text → Text → List State → Bool × State → Written
  wrote path tmp seen (false, s) = given_up tmp s seen
  wrote path tmp seen (true, s) = closed path tmp (s ∷ seen) (fs.close s tmp)

  abbrev pub restricted : Text → Text → Text → List State → Bool × State → Written
  restricted path token tmp seen (false, s) = given_up tmp s seen
  restricted path token tmp seen (true, s) = wrote path tmp (s ∷ seen) (fs.write_string s tmp token)

  abbrev pub created : Text → Text → List State → Option Text × State → Written
  created path token seen (none, s) = (false, s ∷ seen)
  created path token seen (some tmp, s) =
      restricted path token tmp (s ∷ seen) (fs.chmod s tmp private_mode)

  abbrev pub made : Text → Text → Bool × State → Written
  made path token (false, s) = (false, s ∷ [])
  made path token (true, s) = created path token (s ∷ []) (fs.create_temp s (fs.dir_of path))

  unfoldable pub write_token_file : State → Text → Text → Written
  write_token_file s path token = made path token (fs.mkdir_all s (fs.dir_of path))
