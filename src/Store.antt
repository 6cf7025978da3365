-- ===== src/Store.antt =====
-- internal/store: minted credentials, and the interface of a credential store.
pub mod Mint
pub mod Memory
pub mod Valkey
use ozone_oidc_proxy.Base.{ℕ, ◌≡◌, Bool, not, Option, none, some, Result, ok, ltb, if◌then◌else◌}
use ozone_oidc_proxy.Text.{Text, text_eq}
use ozone_oidc_proxy.Go.Clock.{Time}

pub record Credentials : Type 0 where
  pub access_key_id : Text
  pub secret_access_key : Text
  pub session_token : Text
  pub username : Text
  pub issuer : Text
  pub expires_at : Time

-- `Credentials.Expired`
abbrev pub expired : Credentials → Time → Bool
expired c now = not (ltb now c.expires_at)

-- An operation of the store failed.
pub data Failure : Type 0 where
  unavailable : Failure

-- The interface `Store`, at the state of a store. An operation returns an error, or its result.
pub record Store : Type 1 where
  pub State : Type 0
  pub put : State → Credentials → Result Failure State
  pub get : State → Text → Result Failure (Option Credentials)
  pub delete : State → Text → Result Failure State
  pub count : State → Time → Result Failure ℕ

-- The laws of a store: it is a map from access keys to credentials.
pub record IsStore (st : Store) : Type 0 where
  pub get-put :
      (s : st.State) (c : Credentials) (s' : st.State) (akid : Text)
      → st.put s c ≡ ok s'
      → st.get s' akid ≡ (if text_eq c.access_key_id akid then ok (some c) else st.get s akid)
  pub get-delete :
      (s : st.State) (k : Text) (s' : st.State) (akid : Text)
      → st.delete s k ≡ ok s'
      → st.get s' akid ≡ (if text_eq k akid then ok none else st.get s akid)
