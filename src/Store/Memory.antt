-- ===== src/Store/Memory.antt =====
-- internal/store/memory.go: the in-process store. The map is an association list with one entry for
-- each key; its mutex makes every operation one step.
pub mod Laws
pub mod Commands
pub mod History
use ozone_oidc_proxy.Base.{
  ℕ, ◌-◌, suc, Bool, true, false, not, List, [], ◌∷◌, Option, none, some, if◌then◌else◌, ltb,
  Result, ok, ℤ,
}
use ozone_oidc_proxy.Text.{Text, text_eq}
use ozone_oidc_proxy.Go.Clock.{Time, Duration, add}
use ozone_oidc_proxy.Store.{Credentials, expired, Failure, Store}

abbrev pub Memory : Type 0
Memory = List (Text × Credentials)

unfoldable pub lookup : Memory → Text → Option Credentials
lookup [] akid = none
lookup ((key, c) ∷ m) akid = let rest = lookup m akid in if text_eq key akid then some c else rest

-- `delete(m.creds, akid)`
unfoldable pub delete : Memory → Text → Memory
delete [] akid = []
delete ((key, c) ∷ m) akid =
    let rest = delete m akid in if text_eq key akid then rest else (key, c) ∷ rest

-- `m.creds[creds.AccessKeyID] = creds`
unfoldable pub put : Memory → Credentials → Memory
put m c = (c.access_key_id, c) ∷ delete m c.access_key_id

unfoldable pub count : Memory → Time → ℕ
count [] now = 0
count ((key, c) ∷ m) now = let rest = count m now in if expired c now then rest else suc rest

-- `sweep`, with the cutoff `now - retention`.
unfoldable pub sweep_before : Memory → Time → Memory
sweep_before [] cutoff = []
sweep_before ((key, c) ∷ m) cutoff =
    let rest = sweep_before m cutoff in if ltb c.expires_at cutoff then rest else (key, c) ∷ rest

unfoldable pub sweep : Memory → Time → ℕ → Memory
sweep m now retention = sweep_before m (now - retention)

-- The memory store fills the interface; its operations do not fail.
abbrev pub memory_store : Store
memory_store = record {
  State = Memory;
  put = λ m c. ok (put m c);
  get = λ m akid. ok (lookup m akid);
  delete = λ m akid. ok (delete m akid);
  count = λ m now. ok (count m now);
}
