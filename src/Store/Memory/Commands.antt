-- ===== src/Store/Memory/Commands.antt =====
-- The calls that change a store, and what a row of them leaves in the in-process store.
use ozone_oidc_proxy.Base.{List, [], ◌∷◌}
use ozone_oidc_proxy.Text.{Text}
use ozone_oidc_proxy.Store.{Credentials}
use ozone_oidc_proxy.Store.Memory
use ozone_oidc_proxy.Store.Memory.{Memory}

-- A call that changes the store.
pub data Command : Type 0 where
  puts : Credentials → Command
  deletes : Text → Command

abbrev pub apply_memory : Command → Memory → Memory
apply_memory (puts c) m = Memory.put m c
apply_memory (deletes akid) m = Memory.delete m akid

abbrev pub run_memory : List Command → Memory → Memory
run_memory [] m = m
run_memory (command ∷ commands) m = run_memory commands (apply_memory command m)
