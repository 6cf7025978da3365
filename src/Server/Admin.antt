-- ===== src/Server/Admin.antt =====
-- The admin listener: /readyz, and what a scrape of /metrics reads from the store.
use ozone_oidc_proxy.Base.{
  arith, ℕ, ◌≡◌, ◌↔◌, refl, List, [], ◌∷◌, Result, ok, err, if◌then◌else◌, is_nil,
}
use ozone_oidc_proxy.Text.{Text, codes}
use ozone_oidc_proxy.Go.Clock.{Time}
use ozone_oidc_proxy.Store.{Failure, Store}

-- `orUnknown`
abbrev pub or_unknown : Text → Text
or_unknown s = if is_nil s then codes "unknown" else s

-- `resultLabel`
abbrev pub result_label : Text → Text
result_label code = if is_nil code then codes "success" else code

-- A gauge of the credential store.
pub data Metric : Type 0 where
  credential_store_up : ℕ → Metric
  active_credentials : ℕ → Metric

module _ (st : Store) where
  abbrev readiness : Result Failure ℕ → ℕ
  readiness (err e) = 503
  readiness (ok n) = 200

  -- The handler of /readyz, which answers a status.
  unfoldable pub readyz : st.State → Time → ℕ
  readyz s now = readiness (st.count s now)

  abbrev collected : Result Failure ℕ → List Metric
  collected (err e) = credential_store_up 0 ∷ []
  collected (ok n) = credential_store_up 1 ∷ active_credentials n ∷ []

  -- `storeCollector.Collect`
  unfoldable pub collect : st.State → Time → List Metric
  collect s now = collected (st.count s now)

  -- The proxy is ready exactly when a scrape at the same time finds the store up and has a number of
  -- credentials to report.
  pub readyz_iff :
      (s : st.State) (now : Time)
      → (readyz s now ≡ 200)
        ↔ ((n : ℕ) × (collect s now ≡ credential_store_up 1 ∷ active_credentials n ∷ []))
  unfolding readyz collect
  readyz_iff s now = iff (st.count s now)
    where
      iff :
          (r : Result Failure ℕ)
          → (readiness r ≡ 200)
            ↔ ((n : ℕ) × (collected r ≡ credential_store_up 1 ∷ active_credentials n ∷ []))
      iff (ok n) = (λ h. (n, refl), λ h. refl)
      iff (err e) = (λ h. (let absurd : ⊥ = omega (arith, h) in elim absurd [ ]), λ (n, h). cc)
