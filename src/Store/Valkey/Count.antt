-- ===== src/Store/Valkey/Count.antt =====
-- Counting follows the cursors of SCAN to the end.
use ozone_oidc_proxy.Base.{
  ℕ, zero, suc, ◌+◌, ◌≤◌, ◌<◌, ◌≡◌, ◌↔◌, refl, sym, subst, false, List, Option, none, some, arith,
  ◌==◌, length, ok,
}
use ozone_oidc_proxy.Text.{Text}
use ozone_oidc_proxy.Store.Valkey.{Remote, after_scan, count_from, count}

-- A scan from a cursor takes so many calls and answers so many keys in all.
pub data Scan (r : Remote) (w : r.World) : ℕ → ℕ → ℕ → Type 0 where
  ends :
      (cursor : ℕ) (keys : List Text)
      → r.scan w cursor ≡ some (keys, 0)
      → Scan r w cursor 1 (length keys)
  goes_on :
      (cursor : ℕ) (keys : List Text) (next calls total : ℕ)
      → r.scan w cursor ≡ some (keys, suc next)
      → Scan r w (suc next) calls total
      → Scan r w cursor (suc calls) (length keys + total)

-- What a loop that has answered has seen.
record IsCounted (r : Remote) (w : r.World) (fuel cursor before sum : ℕ) : Type 0 where
  calls : ℕ
  total : ℕ
  scan : Scan r w cursor calls total
  enough : calls ≤ fuel
  is_sum : sum ≡ before + total

not_zero : (n : ℕ) → (suc n == 0) ≡ false
not_zero n = ground arith

module _ (r : Remote) (w : r.World) where
  Scan-positive : (cursor calls total : ℕ) → Scan r w cursor calls total → 0 < calls
  Scan-positive cursor calls total (ends i keys e) = omega arith
  Scan-positive cursor calls total (goes_on i keys next rest left e s) = omega arith

  count_from-Scan :
      (fuel cursor calls total before sum : ℕ)
      → Scan r w cursor calls total
      → calls ≤ fuel
      → sum ≡ before + total
      → count_from r fuel w cursor before ≡ some (ok sum)
  unfolding count_from
  count_from-Scan zero cursor calls total before sum s h eq =
      let absurd : ⊥ = omega (arith, Scan-positive cursor calls total s) in elim absurd [ ]
  count_from-Scan (suc fuel) cursor calls total before sum (ends i keys e) h eq = rw (e, eq) refl
  count_from-Scan (suc fuel) cursor calls total before sum (goes_on i keys next rest left e s) h
        eq =
      rw (e, not_zero next)
        (count_from-Scan fuel (suc next) rest left (before + length keys) sum s (omega arith)
          (omega arith))

  count_from-IsCounted :
      (fuel cursor before sum : ℕ)
      → count_from r fuel w cursor before ≡ some (ok sum)
      → IsCounted r w fuel cursor before sum
  unfolding count_from
  count_from-IsCounted zero cursor before sum h = cc
  count_from-IsCounted (suc fuel) cursor before sum h =
      scanned (λ next acc. count_from-IsCounted fuel next acc sum) (r.scan w cursor) refl h
    where
      scanned :
          ((next acc : ℕ)
            → count_from r fuel w next acc ≡ some (ok sum)
            → IsCounted r w fuel next acc sum)
          → (a : Option (List Text × ℕ)) → r.scan w cursor ≡ a
          → after_scan r (λ next acc. count_from r fuel w next acc) before a ≡ some (ok sum)
          → IsCounted r w (suc fuel) cursor before sum
      scanned ih none e g = cc
      scanned ih (some (keys, zero)) e g = record {
        calls = 1;
        total = length keys;
        scan = ends cursor keys e;
        enough = omega arith;
        is_sum = let same : before + length keys ≡ sum = cc g in omega (arith, same);
      }
      scanned ih (some (keys, suc next)) e g =
          let rest = ih (suc next) (before + length keys) (rw (not_zero next) at g) in
          record {
            calls = suc rest.calls;
            total = length keys + rest.total;
            scan = goes_on cursor keys next rest.calls rest.total e rest.scan;
            enough = omega (arith, rest.enough);
            is_sum = omega (arith, rest.is_sum);
          }

-- The count answers a number exactly if the calls of SCAN, each from the cursor of the one before,
-- reach the cursor 0 within the bound, and the number is that of all the keys they answer.
pub count_iff :
    (r : Remote) (fuel : ℕ) (w : r.World) (sum : ℕ)
    → (count r fuel w ≡ some (ok sum)) ↔ ((calls : ℕ) × Scan r w 0 calls sum × (calls ≤ fuel))
count_iff r fuel w sum = (
  λ h.
      let seen = count_from-IsCounted r w fuel 0 0 sum h in
      let same : sum ≡ seen.total = omega (arith, seen.is_sum) in
      (seen.calls, subst (Scan r w 0 seen.calls) (sym same) seen.scan, seen.enough),
  λ (calls, s, enough). count_from-Scan r w fuel 0 calls sum 0 sum s enough (omega arith),
)
