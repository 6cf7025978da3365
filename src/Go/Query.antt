-- ===== src/Go/Query.antt =====
-- url.ParseQuery and URL.Query: the parameters of a query string in order of appearance. A part
-- with a semicolon or a broken escape is left out, and is an error to those who ask.
use ozone_oidc_proxy.Base.{
  Bool, true, false, ◌||◌, List, [], ◌∷◌, Option, none, some, ◌==◌, if◌then◌else◌, any, is_nil,
}
use ozone_oidc_proxy.Text.{Text, text_eq, split, cut}
use ozone_oidc_proxy.Go.Percent.{query_unescape}

abbrev pub Values : Type 0
Values = List (Text × Text)

-- A key and a value, if both could be decoded.
abbrev pub both : Option Text → Option Text → Option (Text × Text)
both none v = none
both (some k) none = none
both (some k) (some v) = some (k, v)

-- One part of the query: a parameter, or `none` where it is left out.
unfoldable pub parameter : Text → Option (Text × Text)
parameter part =
    if any (λ c. c == b';') part
    then none
    else both (query_unescape (cut b'=' part).0) (query_unescape (cut b'=' part).1)

abbrev cons? : Option (Text × Text) → Values → Values
cons? none q = q
cons? (some p) q = p ∷ q

unfoldable pub parameters : List Text → Values
parameters [] = []
parameters (part ∷ parts) =
    let rest = parameters parts in if is_nil part then rest else cons? (parameter part) rest

-- `URL.Query()`
unfoldable pub query : Text → Values
query raw = parameters (split b'&' raw)

abbrev is_none : Option (Text × Text) → Bool
is_none none = true
is_none (some p) = false

-- Whether `url.ParseQuery` reports an error.
unfoldable pub has_bad_part : List Text → Bool
has_bad_part [] = false
has_bad_part (part ∷ parts) =
    let rest = has_bad_part parts in if is_nil part then rest else is_none (parameter part) || rest

-- `Values.Get`
unfoldable pub get : Values → Text → Text
get [] k = []
get ((j, v) ∷ q) k = let rest = get q k in if text_eq j k then v else rest

-- `_, has := q[k]`
unfoldable pub has : Values → Text → Bool
has [] k = false
has ((j, v) ∷ q) k = text_eq j k || has q k
