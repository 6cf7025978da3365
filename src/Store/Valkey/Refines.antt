-- ===== src/Store/Valkey/Refines.antt =====
-- The shared store answers as the in-process store does.
use ozone_oidc_proxy.Base.{
  ◌≡◌, refl, Bool, true, false, List, [], ◌∷◌, Option, none, some, if◌then◌else◌, Result, ok, err,
  All,
}
use ozone_oidc_proxy.Text.{Text, text_eq}
use ozone_oidc_proxy.Go.Clock.{Duration}
use ozone_oidc_proxy.Store.{Credentials}
use ozone_oidc_proxy.Store.Memory.{Memory, lookup}
use ozone_oidc_proxy.Store.Memory.Commands.{Command, puts, deletes, apply_memory, run_memory}
use ozone_oidc_proxy.Store.Memory.Laws.{lookup-put, lookup-delete}
use ozone_oidc_proxy.Store.Valkey.{Fault, Aead, Remote, put, get, delete}
use ozone_oidc_proxy.Store.Valkey.Laws.{IsAead, IsRemote, put-IsSealed, get-IsSealed, get-delete}

module _ (r : Remote) (aead : Aead) (retention : Duration) where
  open r use {World}

  abbrev pub apply_valkey : Command → World → Result Fault (Unit {0}) × World
  apply_valkey (puts c) w = put r aead retention w c
  apply_valkey (deletes akid) w = delete r w akid

  -- Calls one after another, up to the first one that fails.
  abbrev pub and_then :
      (World → Result Fault (Unit {0}) × World)
      → Result Fault (Unit {0}) × World
      → Result Fault (Unit {0}) × World
  and_then rest (err e, w) = (err e, w)
  and_then rest (ok u, w) = rest w

  abbrev pub run_valkey : List Command → World → Result Fault (Unit {0}) × World
  run_valkey [] w = (ok tt, w)
  run_valkey (command ∷ commands) w = and_then (run_valkey commands) (apply_valkey command w)

  -- Every access key is answered alike.
  abbrev pub Represents : World → Memory → Type 0
  Represents w m = (akid : Text) → get r aead w akid ≡ ok (lookup m akid)

  -- JSON keeps the record: it does, if its strings are UTF-8.
  abbrev pub IsStorable : Command → Type 0
  IsStorable (puts c) = (plain : Text) → r.encode c ≡ some plain → r.decode plain ≡ some c
  IsStorable (deletes akid) = Unit

module _ (r : Remote) (aead : Aead) (retention : Duration) (laws : IsRemote r)
    (sound : IsAead aead) where
  open r use {World}

  answer_if :
      (b : Bool) (x y : Option Credentials) (z : Result Fault (Option Credentials))
      → z ≡ ok y
      → (if b then ok x else z) ≡ ok (if b then x else y)
  answer_if true x y z e = refl
  answer_if false x y z e = e

  apply-Represents :
      (command : Command) (w : World) (m : Memory)
      → IsStorable r aead retention command
      → Represents r aead retention w m
      → (apply_valkey r aead retention command w).0 ≡ ok tt
      → Represents r aead retention
          (apply_valkey r aead retention command w).1
          (apply_memory command m)
  apply-Represents (puts c) w m storable same h akid =
      let s = put-IsSealed r laws aead retention w c h in
      rw
        (
          get-IsSealed r laws aead w (put r aead retention w c).1 c akid s sound storable,
          lookup-put m c akid,
        )
        (answer_if (text_eq c.access_key_id akid) (some c) (lookup m akid) (get r aead w akid)
          (same akid))
  apply-Represents (deletes k) w m storable same h akid =
      rw (get-delete r laws aead w k akid h, lookup-delete m k akid)
        (answer_if (text_eq k akid) none (lookup m akid) (get r aead w akid) (same akid))

  and_then-eq-ok :
      (rest : World → Result Fault (Unit {0}) × World) (a : Result Fault (Unit {0}) × World)
      → (and_then r aead retention rest a).0 ≡ ok tt
      → (a.0 ≡ ok tt) × (and_then r aead retention rest a ≡ rest a.1)
  and_then-eq-ok rest (err e, w) h = cc
  and_then-eq-ok rest (ok u, w) h = (refl, refl)

-- The shared store refines the in-process one: from states that answer alike, any puts of records
-- that JSON keeps and any deletes, if they all succeed, lead to states that answer every access key
-- alike.
pub run_valkey-Represents :
    (r : Remote) (aead : Aead) (retention : Duration)
    → IsRemote r
    → IsAead aead
    → (commands : List Command) (w : r.World) (m : Memory)
    → All (IsStorable r aead retention) commands
    → Represents r aead retention w m
    → (run_valkey r aead retention commands w).0 ≡ ok tt
    → Represents r aead retention (run_valkey r aead retention commands w).1 (run_memory commands m)
run_valkey-Represents r aead retention laws sound [] w m storable same h = same
run_valkey-Represents r aead retention laws sound (command ∷ commands) w m (first, storable) same
      h =
    let a = apply_valkey r aead retention command w in
    let (one, next) =
      and_then-eq-ok r aead retention laws sound (run_valkey r aead retention commands) a h in
    rw next (
      run_valkey-Represents r aead retention laws sound commands a.1 (apply_memory command m)
        storable (apply-Represents r aead retention laws sound command w m first same one)
        (rw next at h))
