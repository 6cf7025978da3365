-- ===== src/Examples/Stores.antt =====
-- Runs of the shared store, over a toy server and a toy cipher, and of the portal.
use ozone_oidc_proxy.Base.{
  ℕ, zero, suc, ◌+◌, ◌-◌, ◌*◌, ◌≤◌, ◌<◌, ◌≡◌, ◌↔◌, refl, sym, ap, ◌∙◌, Bool, true, false, List, [],
  ◌∷◌, ◌++◌, Option, none, some, arith, if◌then◌else◌, length, take, take-append, pos, Result, ok,
  err,
}
use ozone_oidc_proxy.Text.{Text, codes, text_eq, cut_prefix}
use ozone_oidc_proxy.Text.Equality.{cut_prefix-append}
use ozone_oidc_proxy.Go.Clock.{second}
use ozone_oidc_proxy.Store.Memory.{lookup}
use ozone_oidc_proxy.Store.Valkey.{
  Fault, undecryptable, Aead, Remote, valkey_prefix, seal, put, get, delete, count, ttl_of,
  milliseconds,
}
use ozone_oidc_proxy.Store.Valkey.Laws.{IsAead, IsRemote, get-graft}
use ozone_oidc_proxy.Store.Memory.Commands.{Command, puts, deletes, run_memory}
use ozone_oidc_proxy.Store.Valkey.Refines.{Represents, run_valkey, run_valkey-Represents}
use ozone_oidc_proxy.Store.Valkey.Lifetime.{ttl_of_bounds}
use ozone_oidc_proxy.Store.Valkey.Count.{Scan, count_iff}
use ozone_oidc_proxy.Examples.Data.{alice, now, credentials}

abbrev zeros : ℕ → Text
zeros zero = []
zeros (suc n) = 0 ∷ zeros n

length-zeros : (n : ℕ) → length (zeros n) ≡ n
length-zeros zero = refl
length-zeros (suc n) = ap suc (length-zeros n)

-- The toy cipher shows everything; its tag is the authenticated data and its length.
abbrev tagged : Text → Text
tagged aad = length aad ∷ aad

abbrev aead : Aead
aead = record {
  nonce_size = 12;
  gcm_seal = λ nonce plain aad. tagged aad ++ plain;
  gcm_open = λ nonce cipher aad. cut_prefix cipher (tagged aad);
}

cut_prefix_sound : (s p t : Text) → cut_prefix s p ≡ some t → s ≡ p ++ t
unfolding cut_prefix
cut_prefix_sound s [] t h = cc
cut_prefix_sound [] (b ∷ p) t h = cc
cut_prefix_sound (a ∷ s) (b ∷ p) t h = ground (arith, cut_prefix_sound s p t)

tagged_binds : (s t aad aad' : Text) → tagged aad ++ s ≡ tagged aad' ++ t → aad ≡ aad'
tagged_binds s t aad aad' e =
    let same_length : length aad ≡ length aad' = cc e in
    let same : aad ++ s ≡ aad' ++ t = cc e in
    sym (take-append aad s)
    ∙ ap (λ u. take (length aad) u) same
    ∙ ap (λ n. take n (aad' ++ t)) same_length
    ∙ take-append aad' t

aead-IsAead : IsAead aead
aead-IsAead = record {
  gcm_open-gcm_seal = λ nonce plain aad h. cut_prefix-append (tagged aad) plain;
  sealed_of_open = λ nonce cipher aad plain h. cut_prefix_sound cipher (tagged aad) plain h;
  binds = λ nonce plain other aad aad' e. tagged_binds plain other aad aad' e;
}

abbrev Server : Type 0
Server = Text → Option Text

abbrev update : Server → Text → Option Text → Server
update s key v = λ k. if text_eq key k then v else s k

-- Every number of keys is answered in two parts.
abbrev scan_at : ℕ → Option (List Text × ℕ)
scan_at zero = some (codes "a" ∷ codes "b" ∷ [], 7)
scan_at (suc n) = some (codes "c" ∷ [], 0)

abbrev pub remote : Remote
remote = record {
  World = Server;
  now = λ w. now;
  random = λ w n. (some (zeros n), w);
  set_px = λ w key value px. (true, update w key (some value));
  get = λ w key. ok (w key);
  del = λ w key. (true, update w key none);
  scan = λ w cursor. scan_at cursor;
  encode = λ c. some (codes "{}");
  decode = λ s. some credentials;
  decode_base64 = λ s. some s;
  new_gcm = λ key. some aead;
}

ok_update :
    (b : Bool) (x y : Option Text)
    → ◌≡◌ {A = Result Fault (Option Text)} (ok (if b then x else y)) (if b then ok x else ok y)
ok_update true x y = refl
ok_update false x y = refl

remote-IsRemote : IsRemote remote
remote-IsRemote = record {
  get-set_px = λ w key value px other h. ok_update (text_eq key other) (some value) (w other);
  get-del = λ w key other h. ok_update (text_eq key other) none (w other);
  get-random = λ w n other. refl;
  length-random =
      λ w n nonce h. let same : zeros n ≡ nonce = cc h in ap length (sym same) ∙ length-zeros n;
}

abbrev empty : Server
empty = λ key. none

abbrev retention : ℕ
retention = 3600 * second

empty-Represents : Represents remote aead (pos retention) empty []
unfolding get lookup
empty-Represents akid = refl

abbrev commands : List Command
commands = puts credentials ∷ deletes (codes "bob") ∷ puts credentials ∷ []

all_done : (run_valkey remote aead (pos retention) commands empty).0 ≡ ok tt
unfolding put delete seal
all_done = refl

run_valkey-Represents_example :
    Represents remote aead
      (pos retention)
      (run_valkey remote aead (pos retention) commands empty).1
      (run_memory commands [])
run_valkey-Represents_example =
    run_valkey-Represents remote aead (pos retention) remote-IsRemote aead-IsAead commands empty []
      ((λ plain e. refl), (tt, ((λ plain e. refl), tt))) empty-Represents all_done

-- The record of alice, copied to bob's access key.
abbrev stored : Server
stored = (put remote aead (pos retention) empty credentials).1

abbrev copied : Text
copied = zeros 12 ++ tagged alice ++ codes "{}"

alice-copied : remote.get stored (valkey_prefix ++ alice) ≡ ok (some copied)
unfolding put seal text_eq
alice-copied = refl

alice_stored : (put remote aead (pos retention) empty credentials).0 ≡ ok tt
unfolding put seal
alice_stored = refl

get-graft_example :
    get remote aead
      (remote.set_px stored (valkey_prefix ++ codes "bob") copied (pos 60)).1
      (codes "bob")
    ≡ err undecryptable
get-graft_example =
    get-graft remote aead (pos retention) empty credentials copied (codes "bob") (pos 60)
      remote-IsRemote aead-IsAead alice_stored alice-copied refl (λ e. cc e)

ttl_of_bounds_example :
    (px : ℕ) × (milliseconds (ttl_of remote (pos retention) (now - 60 * second) credentials)
      ≡ pos px)
    × (0 < px)
    × (now < now - 60 * second + px * 1000000)
    × (now - 60 * second + px * 1000000 ≤ now + retention)
    × (now + retention < now - 60 * second + px * 1000000 + 1000000)
ttl_of_bounds_example =
    ttl_of_bounds remote retention (now - 60 * second) credentials (omega arith) (omega arith)
      (omega arith)

count_iff_example :
    (count remote 2 empty ≡ some (ok 3)) ↔ ((calls : ℕ) × Scan remote empty 0 calls 3 × (calls ≤ 2))
count_iff_example = count_iff remote 2 empty 3
