-- ===== src/Store/Memory/Laws.antt =====
-- The memory store is a finite map; sweeping removes only what expired long ago.
use ozone_oidc_proxy.Base.{
  ℕ, ◌-◌, ◌≤◌, ◌≡◌, refl, subst, inl, inr, Bool, true, false, [], ◌∷◌, Option, none, some, arith,
  if◌then◌else◌, ltb, All, Bool-cases, Result, ok, ok_injective,
}
use ozone_oidc_proxy.Text.{Text, text_eq}
use ozone_oidc_proxy.Text.Equality.{text_eq_iff}
use ozone_oidc_proxy.Go.Clock.{Time}
use ozone_oidc_proxy.Store.{Credentials, Failure, IsStore}
use ozone_oidc_proxy.Store.Memory.{
  Memory, memory_store, lookup, delete, put, count, sweep_before, sweep,
}

-- Every entry stands under its own key, and no key stands twice.
abbrev IsAbsent : Text → Memory → Type 0
IsAbsent akid = All (λ e. text_eq e.0 akid ≡ false)

abbrev pub IsMap : Memory → Type 0
IsMap [] = Unit
IsMap ((key, c) ∷ m) = (key ≡ c.access_key_id) × IsAbsent key m × IsMap m

-- A deleted key is gone, and the others are as they were.
pub lookup-delete :
    (m : Memory) (k j : Text) → lookup (delete m k) j ≡ (if text_eq k j then none else lookup m j)
unfolding lookup delete
lookup-delete [] k j = ground arith
lookup-delete ((i, c) ∷ m) k j =
    ground (arith, lookup-delete m k j, text_eq_iff i k, text_eq_iff i j, text_eq_iff k j)

-- A stored record replaces the one under its key, and the others are as they were.
pub lookup-put :
    (m : Memory) (c : Credentials) (j : Text)
    → lookup (put m c) j ≡ (if text_eq c.access_key_id j then some c else lookup m j)
unfolding lookup put
lookup-put m c j = ground (arith, lookup-delete m c.access_key_id j)

IsAbsent-delete : (m : Memory) (k j : Text) → IsAbsent j m → IsAbsent j (delete m k)
unfolding delete
IsAbsent-delete [] k j h = tt
IsAbsent-delete ((i, c) ∷ m) k j (p, h) = elim (Bool-cases (text_eq i k)) [
  | inl e ↦ rw e (IsAbsent-delete m k j h)
  | inr e ↦ rw e (p, IsAbsent-delete m k j h)
]

delete-IsAbsent : (m : Memory) (k : Text) → IsAbsent k (delete m k)
unfolding delete
delete-IsAbsent [] k = tt
delete-IsAbsent ((i, c) ∷ m) k = elim (Bool-cases (text_eq i k)) [
  | inl e ↦ rw e (delete-IsAbsent m k)
  | inr e ↦ rw e (e, delete-IsAbsent m k)
]

pub delete-IsMap : (m : Memory) (k : Text) → IsMap m → IsMap (delete m k)
unfolding delete
delete-IsMap [] k v = tt
delete-IsMap ((i, c) ∷ m) k (p, a, v) = elim (Bool-cases (text_eq i k)) [
  | inl e ↦ rw e (delete-IsMap m k v)
  | inr e ↦ rw e (p, IsAbsent-delete m k i a, delete-IsMap m k v)
]

pub put-IsMap : (m : Memory) (c : Credentials) → IsMap m → IsMap (put m c)
unfolding put
put-IsMap m c v = (refl, delete-IsAbsent m c.access_key_id, delete-IsMap m c.access_key_id v)

IsAbsent-sweep :
    (m : Memory) (cutoff : Time) (j : Text) → IsAbsent j m → IsAbsent j (sweep_before m cutoff)
unfolding sweep_before
IsAbsent-sweep [] cutoff j h = tt
IsAbsent-sweep ((i, c) ∷ m) cutoff j (p, h) = elim (Bool-cases (ltb c.expires_at cutoff)) [
  | inl e ↦ rw e (IsAbsent-sweep m cutoff j h)
  | inr e ↦ rw e (p, IsAbsent-sweep m cutoff j h)
]

sweep_before-IsMap : (m : Memory) (cutoff : Time) → IsMap m → IsMap (sweep_before m cutoff)
unfolding sweep_before
sweep_before-IsMap [] cutoff v = tt
sweep_before-IsMap ((i, c) ∷ m) cutoff (p, a, v) = elim (Bool-cases (ltb c.expires_at cutoff)) [
  | inl e ↦ rw e (sweep_before-IsMap m cutoff v)
  | inr e ↦ rw e (p, IsAbsent-sweep m cutoff i a, sweep_before-IsMap m cutoff v)
]

lookup_absent : (m : Memory) (j : Text) → IsAbsent j m → lookup m j ≡ none
unfolding lookup
lookup_absent [] j h = refl
lookup_absent ((i, c) ∷ m) j (p, h) = rw p (lookup_absent m j h)

-- Of a record that is swept nothing else is left under its key.
abbrev pub kept : Time → Option Credentials → Option Credentials
kept cutoff none = none
kept cutoff (some c) = if ltb c.expires_at cutoff then none else some c

lookup-sweep_before :
    (m : Memory) (cutoff : Time) (j : Text)
    → IsMap m
    → lookup (sweep_before m cutoff) j ≡ kept cutoff (lookup m j)
unfolding lookup sweep_before
lookup-sweep_before [] cutoff j v = refl
lookup-sweep_before ((i, c) ∷ m) cutoff j (p, a, v) = elim (Bool-cases (text_eq i j)) [
  | inl e ↦
      let gone = subst (λ k. IsAbsent k m) ((text_eq_iff i j).0 e) a in
      ground (arith, e, lookup_absent (sweep_before m cutoff) j (IsAbsent-sweep m cutoff j gone))
  | inr e ↦ ground (arith, lookup-sweep_before m cutoff j v, e)
]

-- On a map, sweeping removes exactly the records that expired more than the retention ago: every
-- other key is answered as before, and what is left is a map.
pub lookup-sweep :
    (m : Memory) (now : Time) (retention : ℕ) (j : Text)
    → IsMap m
    → IsMap (sweep m now retention)
      × (lookup (sweep m now retention) j ≡ kept (now - retention) (lookup m j))
unfolding sweep
lookup-sweep m now retention j v =
    (sweep_before-IsMap m (now - retention) v, lookup-sweep_before m (now - retention) j v)

count-sweep_before :
    (m : Memory) (cutoff now : Time)
    → cutoff ≤ now
    → count (sweep_before m cutoff) now ≡ count m now
unfolding count sweep_before
count-sweep_before [] cutoff now h = refl
count-sweep_before ((i, c) ∷ m) cutoff now h = ground (arith, count-sweep_before m cutoff now h)

-- Sweeping does not change the number of live records, whatever the retention.
pub count-sweep :
    (m : Memory) (now : Time) (retention : ℕ) → count (sweep m now retention) now ≡ count m now
unfolding sweep
count-sweep m now retention = count-sweep_before m (now - retention) now (omega arith)

ok_if :
    (b : Bool) (x y : Option Credentials)
    → ◌≡◌ {A = Result Failure (Option Credentials)}
        (ok (if b then x else y))
        (if b then ok x else ok y)
ok_if true x y = refl
ok_if false x y = refl

-- The memory store is a map from access keys to credentials: what is put is found under its key,
-- what is deleted is not, and every other key is answered as before.
pub memory_store-IsStore : IsStore memory_store
memory_store-IsStore = record {
  get-put = λ m c m' j e. rw (← ok_injective _ m' e, lookup-put m c j) (ok_if _ _ _);
  get-delete = λ m k m' j e. rw (← ok_injective _ m' e, lookup-delete m k j) (ok_if _ _ _);
}
