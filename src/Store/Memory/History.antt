-- ===== src/Store/Memory/History.antt =====
-- The in-process store over time: what its sweeps take away.
use ozone_oidc_proxy.Base.{
  ℕ, ◌+◌, ◌-◌, ◌≤◌, ◌<◌, ◌≡◌, refl, sym, ◌⊎◌, inl, inr, Bool, true, false, Bool-cases, List, [],
  ◌∷◌, All, Option, none, some, arith, ltb, if◌then◌else◌,
}
use ozone_oidc_proxy.Text.{Text, text_eq}
use ozone_oidc_proxy.Go.Clock.{Time}
use ozone_oidc_proxy.Store.{Credentials}
use ozone_oidc_proxy.Store.Memory.{Memory, lookup, sweep}
use ozone_oidc_proxy.Store.Memory.Commands.{Command, puts, deletes, apply_memory, run_memory}
use ozone_oidc_proxy.Store.Memory.Laws.{
  IsMap, lookup-put, lookup-delete, put-IsMap, delete-IsMap, kept, lookup-sweep,
}

-- A call, or a sweep at this time.
pub data Event : Type 0 where
  does : Command → Event
  sweeps : Time → Event

abbrev pub commands_of : List Event → List Command
commands_of [] = []
commands_of (does command ∷ events) = command ∷ commands_of events
commands_of (sweeps t ∷ events) = commands_of events

abbrev apply_event : ℕ → Event → Memory → Memory
apply_event retention (does command) m = apply_memory command m
apply_event retention (sweeps t) m = sweep m t retention

abbrev pub run_events : ℕ → List Event → Memory → Memory
run_events retention [] m = m
run_events retention (event ∷ events) m =
    run_events retention events (apply_event retention event m)

abbrev pub IsBefore : Time → Event → Type 0
IsBefore now (does command) = Unit
IsBefore now (sweeps t) = t ≤ now

-- A key is answered as by the other store, or a record whose retention is over is missing.
abbrev pub Agrees : ℕ → Time → Memory → Memory → Text → Type 0
Agrees retention now swept full akid =
    (lookup swept akid ≡ lookup full akid)
    ⊎ ((lookup swept akid ≡ none)
        × (c : Credentials) × (lookup full akid ≡ some c)
        × (c.expires_at + retention < now))

module _ (retention : ℕ) (now : Time) where
  apply-IsMap : (command : Command) (m : Memory) → IsMap m → IsMap (apply_memory command m)
  apply-IsMap (puts c) m h = put-IsMap m c h
  apply-IsMap (deletes akid) m h = delete-IsMap m akid h

  agrees_if :
      (b : Bool) (x : Option Credentials) (y z : Option Credentials)
      → (y ≡ z) ⊎ ((y ≡ none) × (c : Credentials) × (z ≡ some c) × (c.expires_at + retention < now))
      → ((if b then x else y) ≡ (if b then x else z))
        ⊎ (((if b then x else y) ≡ none)
            × (c : Credentials) × ((if b then x else z) ≡ some c)
            × (c.expires_at + retention < now))
  agrees_if true x y z h = inl refl
  agrees_if false x y z h = h

  apply-Agrees :
      (command : Command) (swept full : Memory)
      → ((akid : Text) → Agrees retention now swept full akid)
      → (akid : Text)
      → Agrees retention now (apply_memory command swept) (apply_memory command full) akid
  apply-Agrees (puts c) swept full h akid =
      rw (lookup-put swept c akid, lookup-put full c akid)
        (agrees_if (text_eq c.access_key_id akid) (some c) (lookup swept akid) (lookup full akid)
          (h akid))
  apply-Agrees (deletes k) swept full h akid =
      rw (lookup-delete swept k akid, lookup-delete full k akid)
        (agrees_if (text_eq k akid) none (lookup swept akid) (lookup full akid) (h akid))

  kept-Agrees :
      (t : Time) (y z : Option Credentials)
      → t ≤ now
      → (y ≡ z) ⊎ ((y ≡ none) × (c : Credentials) × (z ≡ some c) × (c.expires_at + retention < now))
      → (kept (t - retention) y ≡ z)
        ⊎ ((kept (t - retention) y ≡ none)
            × (c : Credentials) × (z ≡ some c)
            × (c.expires_at + retention < now))
  kept-Agrees t none z early (inl e) = inl e
  kept-Agrees t (some c) z early (inl e) = elim (Bool-cases (ltb c.expires_at (t - retention))) [
    | inl old ↦ inr (rw old (refl, c, sym e, ground (arith, old)))
    | inr young ↦ inl (rw young e)
  ]
  kept-Agrees t y z early (inr (gone, c, held, old)) = inr (rw gone (refl, c, held, old))

  run-Agrees :
      (events : List Event) (swept full : Memory)
      → IsMap swept
      → All (IsBefore now) events
      → ((akid : Text) → Agrees retention now swept full akid)
      → (akid : Text)
      → Agrees retention now
          (run_events retention events swept)
          (run_memory (commands_of events) full)
          akid
  run-Agrees [] swept full m early h = h
  run-Agrees (does command ∷ events) swept full m (first, early) h =
      run-Agrees events (apply_memory command swept) (apply_memory command full)
        (apply-IsMap command swept m) early (apply-Agrees command swept full h)
  run-Agrees (sweeps t ∷ events) swept full m (first, early) h =
      run-Agrees events (sweep swept t retention) full (lookup-sweep swept t retention [] m).0 early
        (λ akid.
          rw (lookup-sweep swept t retention akid m).1
            (kept-Agrees t (lookup swept akid) (lookup full akid) first (h akid)))

-- Sweeps are seen only by who asks for a record whose retention is over: after any puts, deletes and
-- sweeps, in any order, none of the sweeps later than now, every access key is answered as by a store
-- that is never swept, or else a record that has expired more than the retention ago is missing.
pub run_events-Agrees :
    (retention : ℕ) (now : Time) (events : List Event) (akid : Text)
    → All (IsBefore now) events
    → Agrees retention now
        (run_events retention events [])
        (run_memory (commands_of events) [])
        akid
run_events-Agrees retention now events akid early =
    run-Agrees retention now events [] [] tt early (λ k. inl refl) akid
