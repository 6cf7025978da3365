-- ===== src/Forward/Strip.antt =====
-- `StripPresignedQuery` removes every authentication parameter and leaves the others alone.
use ozone_oidc_proxy.Base.{
  ◌≡◌, refl, ap, ◌∙◌, true, false, List, [], ◌∷◌, arith, ◌==◌, is_nil, All, some, Option-cases,
  Bool-cases, inl, inr, if◌then◌else◌,
}
use ozone_oidc_proxy.Text.{Text, codes, text_eq, split, split_by, join}
use ozone_oidc_proxy.Text.Equality.{text_eq_iff}
use ozone_oidc_proxy.Text.Parts.{Lacks, split-join, split_by-All-Lacks}
use ozone_oidc_proxy.Go.Http.{Request}
use ozone_oidc_proxy.Go.Query
use ozone_oidc_proxy.Go.Query.{parameter, parameters, query}
use ozone_oidc_proxy.SigV4.Presign.{is_presigned, x_amz_signature}
use ozone_oidc_proxy.Forward.{is_auth_param, is_auth_part, kept_parts, strip_presigned_query}

-- The key of a parameter decides whether its part is kept.
is_auth_part-parameter :
    (part k v : Text) → parameter part ≡ some (k, v) → is_auth_part part ≡ is_auth_param k
unfolding parameter is_auth_part
is_auth_part-parameter part k v e = ground arith

ne_of_param :
    (k name : Text) → is_auth_param k ≡ false → is_auth_param name ≡ true → text_eq k name ≡ false
ne_of_param k name h e = ground (arith, text_eq_iff k name)

module _ (name : Text) (auth : is_auth_param name ≡ true) where
  kept_parts-has : (parts : List Text) → Query.has (parameters (kept_parts parts)) name ≡ false
  unfolding kept_parts parameters Query.has
  kept_parts-has [] = refl
  kept_parts-has (part ∷ parts) = elim (Option-cases (parameter part)) [
    | inl e ↦ ground (arith, kept_parts-has parts, e)
    | inr ((k, v), e) ↦
        ground
          (arith, kept_parts-has parts, e, is_auth_part-parameter part k v e, ne_of_param k name)
  ]

module _ (name : Text) (other : is_auth_param name ≡ false) where
  kept_parts-get :
      (parts : List Text)
      → Query.get (parameters (kept_parts parts)) name ≡ Query.get (parameters parts) name
  unfolding kept_parts parameters Query.get
  kept_parts-get [] = refl
  kept_parts-get (part ∷ parts) = elim (Option-cases (parameter part)) [
    | inl e ↦ ground (arith, kept_parts-get parts, e)
    | inr ((k, v), e) ↦
        ground
          (arith, kept_parts-get parts, e, is_auth_part-parameter part k v e, text_eq_iff k name)
  ]

kept_parts-All : (P : Text → Type 0) (parts : List Text) → All P parts → All P (kept_parts parts)
unfolding kept_parts
kept_parts-All P [] h = tt
kept_parts-All P (part ∷ parts) (p, h) = elim (Bool-cases (is_nil part)) [
  | inl e ↦ rw e (kept_parts-All P parts h)
  | inr e ↦ elim (Bool-cases (is_auth_part part)) [
    | inl f ↦ rw (e, f) (kept_parts-All P parts h)
    | inr f ↦ rw (e, f) (p, kept_parts-All P parts h)
  ]
]

query-join :
    (parts : List Text)
    → All (Lacks (λ c. c == b'&')) parts
    → query (join b'&' parts) ≡ parameters parts
unfolding query
query-join [] h = unfold join split_by parameters in refl
query-join (part ∷ parts) h = ap parameters (split-join b'&' (part ∷ parts) (cc) h)

stripped : Text → Text
stripped raw = if is_nil raw then raw else join b'&' (kept_parts (split b'&' raw))

strip-raw_query : (r : Request) → (strip_presigned_query r).raw_query ≡ stripped r.raw_query
unfolding strip_presigned_query stripped
strip-raw_query r = ground arith

query-stripped : (raw : Text) → query (stripped raw) ≡ parameters (kept_parts (split b'&' raw))
unfolding stripped
query-stripped [] = unfold query split_by parameters kept_parts in refl
query-stripped (c ∷ raw) = query-join (kept_parts (split b'&' (c ∷ raw))) (
    kept_parts-All (Lacks (λ c. c == b'&')) (split b'&' (c ∷ raw))
      (split_by-All-Lacks (λ c. c == b'&') (c ∷ raw)))

query-strip :
    (r : Request)
    → query (strip_presigned_query r).raw_query ≡ parameters (kept_parts (split b'&' r.raw_query))
query-strip r = ap query (strip-raw_query r) ∙ query-stripped r.raw_query

-- Behind the strip no parameter with the name of an authentication parameter is left, whatever
-- the query string.
pub strip_presigned_query-has :
    (r : Request) (name : Text)
    → is_auth_param name ≡ true
    → Query.has (query (strip_presigned_query r).raw_query) name ≡ false
unfolding query
strip_presigned_query-has r name auth =
    ap (λ q. Query.has q name) (query-strip r) ∙ kept_parts-has name auth (split b'&' r.raw_query)

-- Behind the strip every parameter that is no authentication parameter has the value that it had,
-- whatever the query string.
pub strip_presigned_query-get :
    (r : Request) (name : Text)
    → is_auth_param name ≡ false
    → Query.get (query (strip_presigned_query r).raw_query) name
      ≡ Query.get (query r.raw_query) name
unfolding query
strip_presigned_query-get r name other =
    ap (λ q. Query.get q name) (query-strip r) ∙ kept_parts-get name other (split b'&' r.raw_query)

signature_param : is_auth_param x_amz_signature ≡ true
unfolding is_auth_param text_eq
signature_param = refl

algorithm_param : is_auth_param (codes "X-Amz-Algorithm") ≡ true
unfolding is_auth_param text_eq
algorithm_param = refl

-- A stripped request is no presigned request any more, whatever its query string.
pub is_presigned-strip : (r : Request) → is_presigned (strip_presigned_query r) ≡ false
unfolding is_presigned
is_presigned-strip r = rw (
  strip_presigned_query-has r (codes "X-Amz-Algorithm") algorithm_param,
  strip_presigned_query-has r x_amz_signature signature_param,
)
