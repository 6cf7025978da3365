-- ===== src/Go/Http.antt =====
-- net/http: header maps and the parts of a request that the proxy reads. A header is a list of
-- canonical keys with their values; a map keeps no order, and no result depends on this one.
pub mod Laws
use ozone_oidc_proxy.Base.{
  ℕ, ◌+◌, ◌-◌, Bool, true, false, not, ◌&&◌, ◌||◌, List, [], ◌∷◌, map, leb, ◌==◌, if◌then◌else◌,
  any, all, ℤ,
}
use ozone_oidc_proxy.Text.{Text, codes, text_eq, lower}
use ozone_oidc_proxy.Go.Decimal.{is_digit}

abbrev is_letter : ℕ → Bool
is_letter c = (leb b'A' c && leb c b'Z') || (leb b'a' c && leb c b'z')

-- A byte of an HTTP token.
is_token : ℕ → Bool
is_token c = is_letter c || is_digit c || any (λ d. c == d) (codes "!#$%&'*+-.^_`|~")

abbrev upper : ℕ → ℕ
upper c = if leb b'a' c && leb c b'z' then c - 32 else c

-- A capital at the front and behind each dash.
capitalize : Bool → Text → Text
capitalize up [] = []
capitalize up (c ∷ s) = (if up then upper c else lower c) ∷ capitalize (c == b'-') s

-- `CanonicalHeaderKey`: a text that is no token is left alone.
unfoldable pub canonical_key : Text → Text
unfolding is_token capitalize
canonical_key s = if all is_token s then capitalize true s else s

abbrev pub Header : Type 0
Header = List (Text × List Text)

lookup : Text → Header → List Text
lookup k [] = []
lookup k ((j, vs) ∷ h) = let rest = lookup k h in if text_eq j k then vs else rest

remove : Text → Header → Header
remove k [] = []
remove k ((j, vs) ∷ h) = let rest = remove k h in if text_eq j k then rest else (j, vs) ∷ rest

-- `Header.Values`
unfoldable pub values : Header → Text → List Text
unfolding lookup
values h name = lookup (canonical_key name) h

abbrev pub first : List Text → Text
first [] = []
first (v ∷ vs) = v

-- `Header.Get`
abbrev pub get : Header → Text → Text
get h name = first (values h name)

-- `Header.Del`
unfoldable pub del : Header → Text → Header
unfolding remove
del h name = remove (canonical_key name) h

-- `Header.Set`
unfoldable pub set : Header → Text → Text → Header
unfolding del
set h name v = (canonical_key name, v ∷ []) ∷ del h name

-- What the proxy reads of `http.Request`: `escaped_path` is `URL.EscapedPath()`, and `body` what a
-- handler that reads the body to its end receives.
pub record Request : Type 0 where
  pub method : Text
  pub request_uri : Text
  pub host : Text
  pub url_host : Text
  pub path : Text
  pub escaped_path : Text
  pub raw_query : Text
  pub header : Header
  pub content_length : ℤ
  pub body : Text
