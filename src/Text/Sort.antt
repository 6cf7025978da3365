-- ===== src/Text/Sort.antt =====
-- `sort.Slice` and `sort.Strings`. Sorting by a strict total order has one answer, whatever the
-- algorithm, so it is modelled by insertion; the answer depends only on the multiset of the input.
use mathlib.Core.List.{Perm, Permᴰ}
use mathlib.Core.List.Perm
use native.Mathlib.Nat.{ℕ_set}
use mathlib.Core.Logic.{∥∥₁_elim}
use ozone_oidc_proxy.Base.{
  ◌≡◌, refl, ◌∙◌, Bool, true, false, List, [], ◌∷◌, arith, if◌then◌else◌, Bool-cases, inl, inr,
}
use ozone_oidc_proxy.Text.{Text, text_lt, text_eq}
use ozone_oidc_proxy.Text.Equality.{text_eq_iff}

module _ {ℓ} {A : Type ℓ} (less : A → A → Bool) where
  unfoldable pub insert : A → List A → List A
  insert x [] = x ∷ []
  insert x (y ∷ ys) = let rest = insert x ys in if less y x then y ∷ rest else x ∷ y ∷ ys

  unfoldable pub sort : List A → List A
  unfolding insert
  sort [] = []
  sort (x ∷ xs) = insert x (sort xs)

  pub record IsStrictOrder : Type ℓ where
    pub asym : (x y : A) → less x y ≡ true → less y x ≡ false
    pub connex : (x y : A) → less x y ≡ false → less y x ≡ false → x ≡ y
    pub below : (x y z : A) → less z y ≡ false → less z x ≡ true → less y x ≡ true

  module _ (o : IsStrictOrder) where
    insert_comm : (x y : A) (l : List A) → insert x (insert y l) ≡ insert y (insert x l)
    unfolding insert
    insert_comm x y [] = ground (arith, o.asym x y, o.connex x y)
    insert_comm x y (z ∷ l) =
        ground (arith, insert_comm x y l, o.asym x y, o.connex x y, o.below x y z, o.below y x z)

    sort-Permᴰ : {l r : List A} → Permᴰ l r → sort l ≡ sort r
    unfolding sort
    sort-Permᴰ Permᴰ.nil = refl
    sort-Permᴰ (Permᴰ.cons {a = x} e p) = cc (sort-Permᴰ p)
    sort-Permᴰ (Permᴰ.swap {a = x} {b = y} {l = l} e f) = rw (← e, ← f) (insert_comm x y (sort l))
    sort-Permᴰ (Permᴰ.trans p q) = sort-Permᴰ p ∙ sort-Permᴰ q

    -- Sorting forgets the order of its input.
    pub sort-perm_eq : IsSet A → {l r : List A} → Perm l r → sort l ≡ sort r
    sort-perm_eq set {l} {r} p = ∥∥₁_elim p (lists_set (sort l) (sort r)) sort-Permᴰ
      where
        lists_set : IsSet (List A)
        lists_set = hlevel set

  insert-perm : (x : A) (l : List A) → Perm (insert x l) (x ∷ l)
  unfolding insert
  insert-perm x [] = Perm.rfl
  insert-perm x (y ∷ ys) = elim (Bool-cases (less y x)) [
    | inl e ↦ rw e (Perm.trans (Perm.cons y (insert-perm x ys)) (Perm.swap x y ys))
    | inr e ↦ rw e Perm.rfl
  ]

  -- Sorting rearranges.
  pub sort-perm : (l : List A) → Perm (sort l) l
  unfolding sort
  sort-perm [] = Perm.rfl
  sort-perm (x ∷ l) = Perm.trans (insert-perm x (sort l)) (Perm.cons x (sort-perm l))

text_lt-asym : (s t : Text) → text_lt s t ≡ true → text_lt t s ≡ false
unfolding text_lt
text_lt-asym [] [] h = refl
text_lt-asym [] (b ∷ t) h = refl
text_lt-asym (a ∷ s) [] h = cc
text_lt-asym (a ∷ s) (b ∷ t) h = ground (arith, text_lt-asym s t)

text_lt-connex : (s t : Text) → text_lt s t ≡ false → text_lt t s ≡ false → s ≡ t
unfolding text_lt
text_lt-connex [] [] h k = refl
text_lt-connex [] (b ∷ t) h k = cc
text_lt-connex (a ∷ s) [] h k = cc
text_lt-connex (a ∷ s) (b ∷ t) h k = ground (arith, text_lt-connex s t)

text_lt-below : (x y z : Text) → text_lt z y ≡ false → text_lt z x ≡ true → text_lt y x ≡ true
unfolding text_lt
text_lt-below [] y [] h k = cc
text_lt-below [] y (c ∷ z) h k = cc
text_lt-below (a ∷ x) [] [] h k = refl
text_lt-below (a ∷ x) (b ∷ y) [] h k = cc
text_lt-below (a ∷ x) [] (c ∷ z) h k = refl
text_lt-below (a ∷ x) (b ∷ y) (c ∷ z) h k = ground (arith, text_lt-below x y z)

pub text_lt-IsStrictOrder : IsStrictOrder text_lt
text_lt-IsStrictOrder = record {
  asym = text_lt-asym;
  connex = text_lt-connex;
  below = text_lt-below;
}

-- The order of `canonicalQuery`: by key, then by value.
unfoldable pub pair_lt : Text × Text → Text × Text → Bool
pair_lt p q = if text_eq p.0 q.0 then text_lt p.1 q.1 else text_lt p.0 q.0

pub pair_lt-IsStrictOrder : IsStrictOrder pair_lt
unfolding pair_lt
pair_lt-IsStrictOrder = record {
  asym = λ p q h.
      ground (
        arith,
        text_eq_iff p.0 q.0,
        text_eq_iff q.0 p.0,
        text_lt-asym p.0 q.0,
        text_lt-asym p.1 q.1,
      );
  connex = λ p q h k. ground (
    arith,
    text_eq_iff p.0 q.0,
    text_eq_iff q.0 p.0,
    text_lt-connex p.0 q.0,
    text_lt-connex p.1 q.1,
  );
  below = λ p q r h k. ground (
    arith,
    text_eq_iff r.0 q.0,
    text_eq_iff r.0 p.0,
    text_eq_iff q.0 p.0,
    text_lt-asym q.0 r.0,
    text_lt-connex q.0 r.0,
    text_lt-below p.0 q.0 r.0,
    text_lt-below p.1 q.1 r.1,
  );
}

pub Text-set : IsSet Text
Text-set = hlevel ℕ_set

pub pairs_set : IsSet (Text × Text)
pairs_set = hlevel ℕ_set
