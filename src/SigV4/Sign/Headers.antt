-- ===== src/SigV4/Sign/Headers.antt =====
-- The headers that `Sign` covers.
use ozone_oidc_proxy.Base.{
  ◌≡◌, refl, Bool, true, false, List, [], ◌∷◌, arith, All, Bool-cases, inl, inr, ◌⊎◌,
}
use ozone_oidc_proxy.Text.{Text, codes, text_eq, has_prefix, text_lt, to_lower}
use ozone_oidc_proxy.Text.Sort.{insert, sort}
use ozone_oidc_proxy.Go.Http.{Header, canonical_key}
use ozone_oidc_proxy.SigV4.Sign.{amz_names, signed_header_names}

-- The host, or a name that begins with x-amz-.
abbrev pub IsSigned : Text → Type 0
IsSigned name = (name ≡ codes "host") ⊎ (has_prefix name (codes "x-amz-") ≡ true)

insert-All {ℓ κ} :
    {A : Type ℓ} (P : A → Type κ) (less : A → A → Bool) (x : A) (l : List A)
    → P x
    → All P l
    → All P (insert less x l)
unfolding insert
insert-All P less x [] p _ = (p, tt)
insert-All P less x (y ∷ l) p (q, h) = elim (Bool-cases (less y x)) [
  | inl e ↦ rw e (q, insert-All P less x l p h)
  | inr e ↦ rw e (p, (q, h))
]

pub sort-All {ℓ κ} :
    {A : Type ℓ} (P : A → Type κ) (less : A → A → Bool) (l : List A) → All P l → All P (sort less l)
unfolding sort
sort-All P less [] h = tt
sort-All P less (x ∷ l) (p, h) = insert-All P less x (sort less l) p (sort-All P less l h)

amz_names-IsSigned : (h : Header) → All IsSigned (amz_names h)
unfolding amz_names
amz_names-IsSigned [] = tt
amz_names-IsSigned ((key, vs) ∷ h) =
    elim (Bool-cases (has_prefix (to_lower key) (codes "x-amz-"))) [
      | inl e ↦ rw e (inr e, amz_names-IsSigned h)
      | inr e ↦ rw e (amz_names-IsSigned h)
    ]

pub signed_header_names-IsSigned : (h : Header) → All IsSigned (signed_header_names h)
unfolding signed_header_names
signed_header_names-IsSigned h =
    sort-All IsSigned text_lt (codes "host" ∷ amz_names h) (inl refl, amz_names-IsSigned h)

-- A signed name is never that of the Authorization header.
pub signed_not_authorization :
    (name : Text)
    → IsSigned name
    → text_eq (canonical_key (codes "Authorization")) (canonical_key name) ≡ false
unfolding canonical_key text_eq has_prefix
signed_not_authorization name (inl e) = rw e refl
signed_not_authorization [] (inr e) = refl
signed_not_authorization (c ∷ name) (inr e) = let x : c ≡ b'x' = ground arith in rw x (ground arith)
