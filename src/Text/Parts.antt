-- ===== src/Text/Parts.antt =====
-- Splitting, joining and cutting undo one another.
use ozone_oidc_proxy.Base.{
  ℕ, ◌≡◌, refl, ap, ◌≢◌, Bool, true, false, List, [], ◌∷◌, ◌++◌, arith, ◌==◌, All, Bool-cases, inl,
  inr,
}
use ozone_oidc_proxy.Text.{Text, extend, split_by, split, join, cut}

-- No byte of the text passes the test.
abbrev pub Lacks : (ℕ → Bool) → Text → Type 0
Lacks test = All (λ c. test c ≡ false)

module _ (test : ℕ → Bool) where
  pub split_by-ne-nil : (s : Text) → split_by test s ≢ []
  unfolding split_by
  split_by-ne-nil [] = cc
  split_by-ne-nil (c ∷ s) = ground (arith, split_by-ne-nil s)

  pub split_by-Lacks : (s : Text) → Lacks test s → split_by test s ≡ s ∷ []
  unfolding split_by
  split_by-Lacks [] h = refl
  split_by-Lacks (c ∷ s) (p, h) = rw (p, split_by-Lacks s h)

  extend-Lacks :
      (c : ℕ) (ps : List Text)
      → test c ≡ false
      → All (Lacks test) ps
      → All (Lacks test) (extend c ps)
  extend-Lacks c [] h _ = ((h, tt), tt)
  extend-Lacks c (p ∷ ps) h (hp, hps) = ((h, hp), hps)

  -- No part holds a separator.
  pub split_by-All-Lacks : (s : Text) → All (Lacks test) (split_by test s)
  unfolding split_by
  split_by-All-Lacks [] = (tt, tt)
  split_by-All-Lacks (c ∷ s) = elim (Bool-cases (test c)) [
    | inl e ↦ rw e (tt, split_by-All-Lacks s)
    | inr e ↦ rw e (extend-Lacks c (split_by test s) e (split_by-All-Lacks s))
  ]

  pub split_by-append :
      (p : Text) (c : ℕ) (s : Text)
      → Lacks test p
      → test c ≡ true
      → split_by test (p ++ (c ∷ s)) ≡ p ∷ split_by test s
  unfolding split_by
  split_by-append [] c s h e = rw e
  split_by-append (d ∷ p) c s (q, h) e = rw (q, split_by-append p c s h e)

pub split-join :
    (sep : ℕ) (ps : List Text)
    → ps ≢ []
    → All (Lacks (λ c. c == sep)) ps
    → split sep (join sep ps) ≡ ps
unfolding join
split-join sep [] ne h = absurd (ne refl)
split-join sep (p ∷ []) ne (hp, h) = split_by-Lacks (λ c. c == sep) p hp
split-join sep (p ∷ q ∷ ps) ne (hp, h) =
    rw (split_by-append (λ c. c == sep) p sep (join sep (q ∷ ps)) hp (ground arith))
      (ap (◌∷◌ p) (split-join sep (q ∷ ps) (cc) h))

join-nil_front : (sep : ℕ) (ps : List Text) → ps ≢ [] → join sep ([] ∷ ps) ≡ sep ∷ join sep ps
unfolding join
join-nil_front sep [] ne = absurd (ne refl)
join-nil_front sep (p ∷ ps) ne = refl

join-extend : (sep c : ℕ) (ps : List Text) → join sep (extend c ps) ≡ c ∷ join sep ps
unfolding join
join-extend sep c [] = refl
join-extend sep c (p ∷ []) = refl
join-extend sep c (p ∷ q ∷ ps) = refl

pub join-split : (sep : ℕ) (s : Text) → join sep (split sep s) ≡ s
unfolding split_by
join-split sep [] = unfold join in refl
join-split sep (c ∷ s) = ground (
  arith,
  join-split sep s,
  join-nil_front sep (split sep s) (split_by-ne-nil (λ b. b == sep) s),
  join-extend sep c (split sep s),
)

pub cut-append :
    (sep : ℕ) (k v : Text) → Lacks (λ c. c == sep) k → cut sep (k ++ (sep ∷ v)) ≡ (k, v, true)
unfolding cut
cut-append sep [] v h = ground arith
cut-append sep (c ∷ k) v (p, h) = rw (p, cut-append sep k v h)

-- Cutting at a byte that is absent leaves the whole text.
pub cut-Lacks : (sep : ℕ) (k : Text) → Lacks (λ c. c == sep) k → cut sep k ≡ (k, [], false)
unfolding cut
cut-Lacks sep [] h = refl
cut-Lacks sep (c ∷ k) (p, h) = rw (p, cut-Lacks sep k h)
