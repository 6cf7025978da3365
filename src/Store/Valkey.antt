-- ===== src/Store/Valkey.antt =====
-- internal/store/valkey.go: the shared store. The client library, the cipher, the source of
-- randomness, base64 and JSON are parameters; the options and the lifetime of the local cache, which
-- only the client sees, are left out.
pub mod Laws
pub mod Refines
pub mod Lifetime
pub mod Count
use ozone_oidc_proxy.Base.{
  ℕ, zero, suc, ◌+◌, Bool, true, false, List, [], ◌∷◌, ◌++◌, Option, none, some, ◌==◌, ltb,
  if◌then◌else◌, length, take, drop, ℤ, pos, lt_ℤ, quotient, Result, ok, err, of_option,
}
use ozone_oidc_proxy.Text.{Text, codes}
use ozone_oidc_proxy.Go.Clock.{Time, Duration, add, sub}
use ozone_oidc_proxy.Store.{Credentials}

-- How an operation fails.
pub data Fault : Type 0 where
  bad_key : Fault
  unencodable : Fault
  no_randomness : Fault
  unavailable : Fault
  undecryptable : Fault
  corrupt : Fault

-- A `cipher.AEAD`, and its `Seal` and `Open` at a nonce, a text and the authenticated data.
pub record Aead : Type 0 where
  pub nonce_size : ℕ
  pub gcm_seal : Text → Text → Text → Text
  pub gcm_open : Text → Text → Text → Option Text

-- What the store calls. `World` is the state of the server, of the clock and of the randomness.
pub record Remote : Type 1 where
  pub World : Type 0
  pub now : World → Time
  -- `rand.Read` of so many bytes
  pub random : World → ℕ → Option Text × World
  -- SET with PX, GET, DEL: whether the command succeeded, and what a client reads afterwards
  pub set_px : World → Text → Text → ℤ → Bool × World
  pub get : World → Text → Result Fault (Option Text)
  pub del : World → Text → Bool × World
  -- SCAN from a cursor: the keys with the prefix, and the next cursor
  pub scan : World → ℕ → Option (List Text × ℕ)
  pub encode : Credentials → Option Text
  pub decode : Text → Option Credentials
  pub decode_base64 : Text → Option Text
  -- `aes.NewCipher` and `cipher.NewGCM`
  pub new_gcm : Text → Option Aead

-- `StoreKeyBytes`
abbrev pub store_key_bytes : ℕ
store_key_bytes = 32

abbrev pub valkey_prefix : Text
valkey_prefix = codes "ozpx:cred:"

-- `seal` at a nonce: nonce and ciphertext, one behind the other.
abbrev pub sealed_with : Aead → Text → Text → Text → Text
sealed_with aead nonce plain aad = nonce ++ aead.gcm_seal nonce plain aad

-- `open`
unfoldable pub open_sealed : Aead → Text → Text → Option Text
open_sealed aead sealed aad =
    if ltb (length sealed) aead.nonce_size
    then none
    else aead.gcm_open (take aead.nonce_size sealed) (drop aead.nonce_size sealed) aad

-- The milliseconds of a duration.
abbrev pub milliseconds : Duration → ℤ
milliseconds d = quotient d 1000000

module _ (r : Remote) where
  open r use {World}

  abbrev of_length : Text → Result Fault Text
  of_length key = if length key == store_key_bytes then ok key else err bad_key

  abbrev pub checked_key : Option Text → Result Fault Text
  checked_key none = err bad_key
  checked_key (some key) = of_length key

  -- `ParseStoreKey`
  unfoldable pub parse_store_key : Text → Result Fault Text
  parse_store_key s = checked_key (r.decode_base64 s)

  -- `newAEAD`
  unfoldable pub new_aead : Text → Result Fault Aead
  new_aead key =
      let made = of_option bad_key (r.new_gcm key) in
      if length key == store_key_bytes then made else err bad_key

  -- `seal`, which takes a random nonce.
  abbrev sealed : Aead → Text → Text → Option Text × World → Result Fault Text × World
  sealed aead plain aad (none, w) = (err no_randomness, w)
  sealed aead plain aad (some nonce, w) = (ok (sealed_with aead nonce plain aad), w)

  unfoldable pub seal : Aead → World → Text → Text → Result Fault Text × World
  seal aead w plain aad = sealed aead plain aad (r.random w aead.nonce_size)

  -- How long the server keeps a record.
  unfoldable pub ttl_of : Duration → Time → Credentials → Duration
  ttl_of retention now c =
      let ttl = sub (add c.expires_at retention) now in if lt_ℤ (pos 0) ttl then ttl else retention

  abbrev pub done : Bool × World → Result Fault (Unit {0}) × World
  done (true, w) = (ok tt, w)
  done (false, w) = (err unavailable, w)

  -- A record is stored under its access key.
  abbrev pub put_sealed :
      Duration → Credentials → Result Fault Text × World → Result Fault (Unit {0}) × World
  put_sealed ttl c (err e, w) = (err e, w)
  put_sealed ttl c (ok sealed, w) =
      done (r.set_px w (valkey_prefix ++ c.access_key_id) sealed (milliseconds ttl))

  abbrev pub put_encoded :
      Aead → Duration → World → Credentials → Option Text → Result Fault (Unit {0}) × World
  put_encoded aead retention w c none = (err unencodable, w)
  put_encoded aead retention w c (some plain) =
      put_sealed (ttl_of retention (r.now w) c) c (seal aead w plain c.access_key_id)

  -- `Valkey.Put`
  unfoldable pub put : Aead → Duration → World → Credentials → Result Fault (Unit {0}) × World
  put aead retention w c = put_encoded aead retention w c (r.encode c)

  abbrev found : Option Credentials → Result Fault (Option Credentials)
  found none = err corrupt
  found (some c) = ok (some c)

  abbrev pub decoded : Option Text → Result Fault (Option Credentials)
  decoded none = err undecryptable
  decoded (some plain) = found (r.decode plain)

  abbrev pub opened : Aead → Text → Result Fault (Option Text) → Result Fault (Option Credentials)
  opened aead akid (err e) = err e
  opened aead akid (ok none) = ok none
  opened aead akid (ok (some value)) = decoded (open_sealed aead value akid)

  -- `Valkey.Get`
  unfoldable pub get : Aead → World → Text → Result Fault (Option Credentials)
  get aead w akid = opened aead akid (r.get w (valkey_prefix ++ akid))

  -- `Valkey.Delete`
  unfoldable pub delete : World → Text → Result Fault (Unit {0}) × World
  delete w akid = done (r.del w (valkey_prefix ++ akid))

  -- What follows a SCAN.
  abbrev pub after_scan :
      (ℕ → ℕ → Option (Result Fault ℕ)) → ℕ → Option (List Text × ℕ) → Option (Result Fault ℕ)
  after_scan rest total none = some (err unavailable)
  after_scan rest total (some (elements, next)) =
      let sum = total + length elements in
      let more = rest next sum in if next == 0 then some (ok sum) else more

  -- The loop of `Valkey.Count`: `none` is a loop that has not ended within its fuel.
  unfoldable pub count_from : ℕ → World → ℕ → ℕ → Option (Result Fault ℕ)
  count_from zero w cursor total = none
  count_from (suc fuel) w cursor total =
      after_scan (λ next sum. count_from fuel w next sum) total (r.scan w cursor)

  -- `Valkey.Count`
  abbrev pub count : ℕ → World → Option (Result Fault ℕ)
  count fuel w = count_from fuel w 0 0
