-- ===== src/SigV4/Canonical/Order.antt =====
-- The canonical query depends on the multiset of the parameters, not on their order, and not on the
-- parameter that is left out.
use mathlib.Core.List.{Perm, Permᴰ, perm_append_comm}
use mathlib.Core.List.Perm
use mathlib.Core.Logic.{∥∥₁_elim}
use native.Mathlib.Nat.{ℕ_set}
use ozone_oidc_proxy.Base.{
  ◌≡◌, refl, sym, ap, ◌∙◌, ◌≢◌, false, not, ◌&&◌, List, [], ◌∷◌, ◌++◌, map, arith, ◌==◌, is_nil,
  Option, none, some, Result, ok, ◌>>=◌, of_option, append_assoc, if◌then◌else◌, All,
}
use ozone_oidc_proxy.Text.{Text, split, split_by, join, text_eq}
use ozone_oidc_proxy.Text.Equality.{text_eq_refl}
use ozone_oidc_proxy.Text.Parts.{Lacks, split-join}
use ozone_oidc_proxy.Text.Sort.{sort, pair_lt, pair_lt-IsStrictOrder, sort-perm_eq, pairs_set}
use ozone_oidc_proxy.SigV4.{Error, malformed}
use ozone_oidc_proxy.SigV4.Canonical.{
  decode_pair, encode_pair, encoded_pairs, write_pair, canonical_query,
}

abbrev Pairs : Type 0
Pairs = List (Text × Text)

-- What one part contributes: no pair or one, and `none` on an error.
abbrev keep_one : Text → Option (Text × Text) → Option Pairs
keep_one skip none = none
keep_one skip (some p) =
    some (if not (is_nil skip) && text_eq p.0 skip then [] else encode_pair p ∷ [])

contribution : Text → Text → Option Pairs
contribution skip part = if is_nil part then some [] else keep_one skip (decode_pair part)

abbrev combine : Option Pairs → Option Pairs → Option Pairs
combine none rest = none
combine (some xs) none = none
combine (some xs) (some ps) = some (xs ++ ps)

-- Both fail, or both have the same pairs in some order.
abbrev SamePairs : Option Pairs → Option Pairs → Type 0
SamePairs (some ps) (some qs) = Perm ps qs
SamePairs none none = Unit
SamePairs (some ps) none = ⊥
SamePairs none (some qs) = ⊥

SamePairs-combine : (m l r : Option Pairs) → SamePairs l r → SamePairs (combine m l) (combine m r)
SamePairs-combine none l r h = tt
SamePairs-combine (some xs) none none h = tt
SamePairs-combine (some xs) (some ps) (some qs) h = Perm.append_left xs h
SamePairs-combine (some xs) none (some qs) h = h
SamePairs-combine (some xs) (some ps) none h = h

SamePairs-swap :
    (m n r : Option Pairs) → SamePairs (combine m (combine n r)) (combine n (combine m r))
SamePairs-swap none none r = tt
SamePairs-swap none (some ys) r = tt
SamePairs-swap (some xs) none r = tt
SamePairs-swap (some xs) (some ys) none = tt
SamePairs-swap (some xs) (some ys) (some ps) =
    rw (← append_assoc xs ys ps, ← append_assoc ys xs ps)
      (Perm.append_right ps (perm_append_comm xs ys))

SamePairs-trans : (l m r : Option Pairs) → SamePairs l m → SamePairs m r → SamePairs l r
SamePairs-trans none none none h k = tt
SamePairs-trans none none (some qs) h k = k
SamePairs-trans none (some ps) r h k = absurd h
SamePairs-trans (some ps) none r h k = absurd h
SamePairs-trans (some ps) (some qs) none h k = k
SamePairs-trans (some ps) (some qs) (some rs) h k = Perm.trans h k

SamePairs-refl : (l : Option Pairs) → SamePairs l l
SamePairs-refl none = tt
SamePairs-refl (some ps) = Perm.rfl

module _ (skip : Text) where
  encoded_pairs-cons :
      (part : Text) (parts : List Text)
      → encoded_pairs skip (part ∷ parts)
        ≡ combine (contribution skip part) (encoded_pairs skip parts)
  unfolding encoded_pairs contribution
  encoded_pairs-cons part parts = ground arith

  SamePairs-Permᴰ :
      {l r : List Text} → Permᴰ l r → SamePairs (encoded_pairs skip l) (encoded_pairs skip r)
  SamePairs-Permᴰ Permᴰ.nil = SamePairs-refl (encoded_pairs skip [])
  SamePairs-Permᴰ (Permᴰ.cons {a = x} {b = y} {l₁ = l} {l₂ = r} e p) =
      rw (encoded_pairs-cons x l, encoded_pairs-cons y r, e)
        (SamePairs-combine (contribution skip y) (encoded_pairs skip l) (encoded_pairs skip r)
          (SamePairs-Permᴰ p))
  SamePairs-Permᴰ (Permᴰ.swap {a = x} {b = y} {a' = y'} {b' = x'} {l = l} e f) =
      rw
        (
          encoded_pairs-cons x (y ∷ l),
          encoded_pairs-cons y l,
          encoded_pairs-cons y' (x' ∷ l),
          encoded_pairs-cons x' l,
          e,
          f,
        )
        (SamePairs-swap (contribution skip x') (contribution skip y') (encoded_pairs skip l))
  SamePairs-Permᴰ (Permᴰ.trans {l₁ = l} {l₂ = m} {l₃ = r} p q) =
      SamePairs-trans (encoded_pairs skip l) (encoded_pairs skip m) (encoded_pairs skip r)
        (SamePairs-Permᴰ p) (SamePairs-Permᴰ q)

-- The canonical text of decoded pairs.
abbrev finish : Option Pairs → Result Error Text
finish o = do pairs ← of_option malformed o; ok (join b'&' (map write_pair (sort pair_lt pairs)))

finish-SamePairs : (l r : Option Pairs) → SamePairs l r → finish l ≡ finish r
finish-SamePairs none none h = refl
finish-SamePairs none (some qs) h = absurd h
finish-SamePairs (some ps) none h = absurd h
finish-SamePairs (some ps) (some qs) h =
    ap (λ s. ok (join b'&' (map write_pair s)))
      (sort-perm_eq pair_lt pair_lt-IsStrictOrder pairs_set h)

canonical_query-finish :
    (skip raw : Text) → canonical_query raw skip ≡ finish (encoded_pairs skip (split b'&' raw))
unfolding canonical_query encoded_pairs split_by sort join
canonical_query-finish skip [] = refl
canonical_query-finish skip (c ∷ raw) = refl

canonical_query-join :
    (skip : Text) (parts : List Text)
    → parts ≢ []
    → All (Lacks (λ c. c == b'&')) parts
    → canonical_query (join b'&' parts) skip ≡ finish (encoded_pairs skip parts)
canonical_query-join skip parts ne h =
    canonical_query-finish skip (join b'&' parts)
    ∙ ap (λ ps. finish (encoded_pairs skip ps)) (split-join b'&' parts ne h)

-- Two query strings that join the same parts, which have no ampersand, in any order have the same
-- canonical query, errors included, whichever parameter is left out.
pub canonical_query-perm :
    (skip : Text) (l r : List Text)
    → l ≢ []
    → r ≢ []
    → All (Lacks (λ c. c == b'&')) l
    → All (Lacks (λ c. c == b'&')) r
    → Perm l r
    → canonical_query (join b'&' l) skip ≡ canonical_query (join b'&' r) skip
canonical_query-perm skip l r nl nr hl hr p =
    canonical_query-join skip l nl hl
    ∙ ∥∥₁_elim p (results_set _ _) (λ d.
      finish-SamePairs (encoded_pairs skip l) (encoded_pairs skip r) (SamePairs-Permᴰ skip d))
    ∙ sym (canonical_query-join skip r nr hr)
  where
    results_set : IsSet (Result Error Text)
    results_set = hlevel ℕ_set

skipped-contribution :
    (skip part : Text) (v : Text)
    → skip ≢ []
    → decode_pair part ≡ some (skip, v)
    → is_nil part ≡ false
    → contribution skip part ≡ some []
unfolding contribution
skipped-contribution skip part v ne e h = ground (arith, text_eq_refl skip)

combine-nil : (o : Option Pairs) → combine (some []) o ≡ o
combine-nil none = refl
combine-nil (some ps) = refl

encoded_pairs-skip :
    (skip part v : Text) (l r : List Text)
    → skip ≢ []
    → decode_pair part ≡ some (skip, v)
    → is_nil part ≡ false
    → encoded_pairs skip (l ++ (part ∷ r)) ≡ encoded_pairs skip (l ++ r)
encoded_pairs-skip skip part v [] r ne e h =
    rw (encoded_pairs-cons skip part r, skipped-contribution skip part v ne e h)
      (combine-nil (encoded_pairs skip r))
encoded_pairs-skip skip part v (p ∷ l) r ne e h = rw (
  encoded_pairs-cons skip p (l ++ (part ∷ r)),
  encoded_pairs-cons skip p (l ++ r),
  encoded_pairs-skip skip part v l r ne e h,
)

All-without :
    (P : Text → Type 0) (l : List Text) (x : Text) (r : List Text)
    → All P (l ++ (x ∷ r))
    → All P (l ++ r)
All-without P [] x r (p, h) = h
All-without P (y ∷ l) x r (q, h) = (q, All-without P l x r h)

append-cons-ne-nil : (l : List Text) (x : Text) (r : List Text) → l ++ (x ∷ r) ≢ []
append-cons-ne-nil [] x r = cc
append-cons-ne-nil (y ∷ l) x r = cc

-- A part that decodes to the parameter that is left out, with any value, does not enter the
-- canonical query, wherever it stands between other parts: it can be added after signing.
pub canonical_query-skip :
    (skip part v : Text) (l r : List Text)
    → skip ≢ []
    → part ≢ []
    → l ++ r ≢ []
    → All (Lacks (λ c. c == b'&')) (l ++ (part ∷ r))
    → decode_pair part ≡ some (skip, v)
    → canonical_query (join b'&' (l ++ (part ∷ r))) skip ≡ canonical_query (join b'&' (l ++ r)) skip
canonical_query-skip skip part v l r ne np nlr h e =
    canonical_query-join skip (l ++ (part ∷ r)) (append-cons-ne-nil l part r) h
    ∙ ap finish (encoded_pairs-skip skip part v l r ne e (ground arith))
    ∙ sym (canonical_query-join skip (l ++ r) nlr (All-without _ l part r h))
