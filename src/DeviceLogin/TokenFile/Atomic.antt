-- ===== src/DeviceLogin/TokenFile/Atomic.antt =====
-- A reader of the token file never finds a part of a token.
use ozone_oidc_proxy.Base.{
  ℕ, ◌≡◌, ◌≢◌, ap, ◌∙◌, ◌⊎◌, inl, inr, true, false, Bool-cases, List, [], ◌∷◌, All, All-weaken,
  Option, some, Option-cases,
}
use ozone_oidc_proxy.Text.{Text}
use ozone_oidc_proxy.DeviceLogin.TokenFile.{
  Files, private_mode, Written, removed, renamed, closed, given_up, wrote, restricted, created,
  write_token_file,
}

-- What the file system is relied on for.
pub record IsFiles (fs : Files) : Type 0 where
  pub look-mkdir_all :
      (s : fs.State) (dir path : Text) → fs.look (fs.mkdir_all s dir).1 path ≡ fs.look s path
  pub is_temp-create_temp :
      (s : fs.State) (dir tmp : Text) → (fs.create_temp s dir).0 ≡ some tmp → fs.is_temp tmp ≡ true
  pub look-create_temp :
      (s : fs.State) (dir path : Text)
      → fs.is_temp path ≡ false
      → fs.look (fs.create_temp s dir).1 path ≡ fs.look s path
  pub look-create_temp_self :
      (s : fs.State) (dir tmp : Text)
      → (fs.create_temp s dir).0 ≡ some tmp
      → (mode : ℕ) × (fs.look (fs.create_temp s dir).1 tmp ≡ some (mode, []))
  pub look-chmod :
      (s : fs.State) (f path : Text) (mode : ℕ)
      → path ≢ f
      → fs.look (fs.chmod s f mode).1 path ≡ fs.look s path
  pub look-chmod_self :
      (s : fs.State) (f : Text) (mode old : ℕ) (text : Text)
      → fs.look s f ≡ some (old, text)
      → (fs.chmod s f mode).0 ≡ true
      → fs.look (fs.chmod s f mode).1 f ≡ some (mode, text)
  pub look-write_string :
      (s : fs.State) (f path text : Text)
      → path ≢ f
      → fs.look (fs.write_string s f text).1 path ≡ fs.look s path
  pub look-write_string_self :
      (s : fs.State) (f text : Text) (mode : ℕ)
      → fs.look s f ≡ some (mode, [])
      → (fs.write_string s f text).0 ≡ true
      → fs.look (fs.write_string s f text).1 f ≡ some (mode, text)
  pub look-close : (s : fs.State) (f path : Text) → fs.look (fs.close s f).1 path ≡ fs.look s path
  pub look-rename_failed :
      (s : fs.State) (from to path : Text)
      → (fs.rename s from to).0 ≡ false
      → fs.look (fs.rename s from to).1 path ≡ fs.look s path
  pub look-rename_self :
      (s : fs.State) (from to : Text)
      → (fs.rename s from to).0 ≡ true
      → fs.look (fs.rename s from to).1 to ≡ fs.look s from
  pub look-remove :
      (s : fs.State) (f path : Text) → path ≢ f → fs.look (fs.remove s f) path ≡ fs.look s path

module _ (fs : Files) (path token : Text) (old : Option (ℕ × Text)) where
  open fs use {State}

  abbrev pub IsOld : State → Type 0
  IsOld s = fs.look s path ≡ old

  abbrev pub IsNew : State → Type 0
  IsNew s = fs.look s path ≡ some (private_mode, token)

  -- Either every state still has the old file, or the call has succeeded, its last state has the new
  -- one and every earlier state the one or the other.
  abbrev pub IsAtomic : Written fs → Type 0
  IsAtomic (false, seen) = All IsOld seen
  IsAtomic (true, []) = ⊥
  IsAtomic (true, s ∷ seen) = IsNew s × All (λ u. IsOld u ⊎ IsNew u) seen

module _ (fs : Files) (laws : IsFiles fs) (path token : Text) (old : Option (ℕ × Text))
    (proper : fs.is_temp path ≡ false) where
  open fs use {State}

  abbrev Atomic : Written fs → Type 0
  Atomic = IsAtomic fs path token old

  abbrev Old : State → Type 0
  Old = IsOld fs path token old

  module _ (tmp : Text) (apart : path ≢ tmp) where
    removed-IsAtomic :
        (s : State) (seen : List State)
        → Old s
        → All Old seen
        → Atomic (removed fs false tmp s seen)
    removed-IsAtomic s seen h hs = (laws.look-remove s tmp path apart ∙ h, (h, hs))

    given_up-IsAtomic :
        (s : State) (seen : List State) → Old s → All Old seen → Atomic (given_up fs tmp s seen)
    given_up-IsAtomic s seen h hs =
        removed-IsAtomic (fs.close s tmp).1 (s ∷ seen) (laws.look-close s tmp path ∙ h) (h, hs)

    renamed-IsAtomic :
        (s : State) (seen : List State)
        → fs.look s tmp ≡ some (private_mode, token)
        → Old s
        → All Old seen
        → Atomic (renamed fs tmp (s ∷ seen) (fs.rename s tmp path))
    renamed-IsAtomic s seen t h hs = elim (Bool-cases (fs.rename s tmp path).0) [
      | inl e ↦
          let fresh = laws.look-rename_self s tmp path e ∙ t in
          rw e (
            laws.look-remove (fs.rename s tmp path).1 tmp path apart ∙ fresh,
            (inr fresh, (inl h, All-weaken seen (λ u p. inl p) hs)),
          )
      | inr e ↦ rw e (
          removed-IsAtomic (fs.rename s tmp path).1 (s ∷ seen)
            (laws.look-rename_failed s tmp path path e ∙ h) (h, hs))
    ]

    closed-IsAtomic :
        (s : State) (seen : List State)
        → fs.look s tmp ≡ some (private_mode, token)
        → Old s
        → All Old seen
        → Atomic (closed fs path tmp (s ∷ seen) (fs.close s tmp))
    closed-IsAtomic s seen t h hs =
        let s' = (fs.close s tmp).1 in
        let h' : Old s' = laws.look-close s tmp path ∙ h in
        elim (Bool-cases (fs.close s tmp).0) [
          | inl e ↦ rw e (renamed-IsAtomic s' (s ∷ seen) (laws.look-close s tmp tmp ∙ t) h' (h, hs))
          | inr e ↦ rw e (removed-IsAtomic s' (s ∷ seen) h' (h, hs))
        ]

    wrote-IsAtomic :
        (s : State) (seen : List State)
        → fs.look s tmp ≡ some (private_mode, [])
        → Old s
        → All Old seen
        → Atomic (wrote fs path tmp (s ∷ seen) (fs.write_string s tmp token))
    wrote-IsAtomic s seen t h hs =
        let s' = (fs.write_string s tmp token).1 in
        let h' : Old s' = laws.look-write_string s tmp path token apart ∙ h in
        elim (Bool-cases (fs.write_string s tmp token).0) [
          | inl e ↦ rw e (
              closed-IsAtomic s' (s ∷ seen)
                (laws.look-write_string_self s tmp token private_mode t e) h' (h, hs))
          | inr e ↦ rw e (given_up-IsAtomic s' (s ∷ seen) h' (h, hs))
        ]

    restricted-IsAtomic :
        (s : State) (seen : List State) (mode : ℕ)
        → fs.look s tmp ≡ some (mode, [])
        → Old s
        → All Old seen
        → Atomic (restricted fs path token tmp (s ∷ seen) (fs.chmod s tmp private_mode))
    restricted-IsAtomic s seen mode t h hs =
        let s' = (fs.chmod s tmp private_mode).1 in
        let h' : Old s' = laws.look-chmod s tmp path private_mode apart ∙ h in
        elim (Bool-cases (fs.chmod s tmp private_mode).0) [
          | inl e ↦ rw e (
              wrote-IsAtomic s' (s ∷ seen) (laws.look-chmod_self s tmp private_mode mode [] t e) h'
                (h, hs))
          | inr e ↦ rw e (given_up-IsAtomic s' (s ∷ seen) h' (h, hs))
        ]

  proper-ne : (tmp : Text) → fs.is_temp tmp ≡ true → path ≢ tmp
  proper-ne tmp h e = cc (ap fs.is_temp e)

  created-IsAtomic :
      (s : State) (seen : List State) (dir : Text)
      → Old s
      → All Old seen
      → Atomic (created fs path token seen (fs.create_temp s dir))
  created-IsAtomic s seen dir h hs =
      let s' = (fs.create_temp s dir).1 in
      let h' : Old s' = laws.look-create_temp s dir path proper ∙ h in
      elim (Option-cases (fs.create_temp s dir).0) [
        | inl e ↦ rw e (h', hs)
        | inr (tmp, e) ↦
            let (mode, empty) = laws.look-create_temp_self s dir tmp e in
            rw e (
              restricted-IsAtomic tmp (proper-ne tmp (laws.is_temp-create_temp s dir tmp e)) s' seen
                mode empty h' hs)
      ]

-- Whatever call fails, and at every moment in between, a reader of the path finds the file as it was
-- before or the whole new token with mode 0600: the new one behind a success, the old one throughout
-- a failure. The path must not be a name of a temporary file.
pub write_token_file-IsAtomic :
    (fs : Files) (path token : Text) (s : fs.State)
    → IsFiles fs
    → fs.is_temp path ≡ false
    → IsAtomic fs path token (fs.look s path) (write_token_file fs s path token)
unfolding write_token_file
write_token_file-IsAtomic fs path token s laws proper =
    let dir = fs.dir_of path in
    let s' = (fs.mkdir_all s dir).1 in
    let h : fs.look s' path ≡ fs.look s path = laws.look-mkdir_all s dir path in
    elim (Bool-cases (fs.mkdir_all s dir).0) [
      | inl e ↦
          rw e
            (created-IsAtomic fs laws path token (fs.look s path) proper s' (s' ∷ []) dir h (h, tt))
      | inr e ↦ rw e (h, tt)
    ]
