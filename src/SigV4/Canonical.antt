-- ===== src/SigV4/Canonical.antt =====
-- internal/sigv4/sigv4.go, the canonical request.
pub mod Encoding
pub mod Order
use ozone_oidc_proxy.Base.{
  ℕ, ◌/◌, ◌%◌, Bool, true, false, not, ◌&&◌, ◌||◌, List, [], ◌∷◌, ◌++◌, map, leb, ◌==◌,
  if◌then◌else◌, is_nil, any, Option, none, some, Result, ok, err, ◌>>=◌, of_option, ℤ, pos, negsuc,
}
use ozone_oidc_proxy.Text.{Text, codes, text_eq, has_prefix, cut, split, join, fields}
use ozone_oidc_proxy.Text.Sort.{sort, pair_lt}
use ozone_oidc_proxy.Go.Decimal.{is_digit, decimal}
use ozone_oidc_proxy.Go.Hex.{hex_digit}
use ozone_oidc_proxy.Go.Http
use ozone_oidc_proxy.Go.Http.{Request}
use ozone_oidc_proxy.Go.Percent.{path_unescape}
use ozone_oidc_proxy.Go.Query.{both}
use ozone_oidc_proxy.Platform.{Platform}
use ozone_oidc_proxy.SigV4.{Error, malformed}

-- The hash of the empty body.
abbrev pub empty_body_sha256 : Text
empty_body_sha256 = codes "e3b0c44298fc1c149afbf4c8996fb92427ae41e4649b934ca495991b7852b855"

abbrev pub unreserved : ℕ → Bool
unreserved c =
    (leb b'A' c && leb c b'Z')
    || (leb b'a' c && leb c b'z')
    || is_digit c
    || c == b'-'
    || c == b'.'
    || c == b'_'
    || c == b'~'

unfoldable pub uri_encode : Bool → Text → Text
uri_encode encode_slash [] = []
uri_encode encode_slash (c ∷ s) =
    let rest = uri_encode encode_slash s in
    if unreserved c || (c == b'/' && not encode_slash)
    then c ∷ rest
    else b'%' ∷ hex_digit b'A' (c / 16) ∷ hex_digit b'A' (c % 16) ∷ rest

-- The decoded key and value of one part of the query.
unfoldable pub decode_pair : Text → Option (Text × Text)
decode_pair part = both (path_unescape (cut b'=' part).0) (path_unescape (cut b'=' part).1)

abbrev encode_pair : Text × Text → Text × Text
encode_pair (k, v) = (uri_encode true k, uri_encode true v)

-- The parameter `skip_key`, unless that is empty, is left out.
abbrev keep_pair :
    Text → Option (Text × Text) → Option (List (Text × Text)) → Option (List (Text × Text))
keep_pair skip_key none rest = none
keep_pair skip_key (some p) none = none
keep_pair skip_key (some p) (some ps) =
    some (if not (is_nil skip_key) && text_eq p.0 skip_key then ps else encode_pair p ∷ ps)

-- The loop of `canonicalQuery`; `none` is a key or a value that cannot be decoded.
unfoldable pub encoded_pairs : Text → List Text → Option (List (Text × Text))
unfolding decode_pair
encoded_pairs skip_key [] = some []
encoded_pairs skip_key (part ∷ parts) =
    let rest = encoded_pairs skip_key parts in
    if is_nil part then rest else keep_pair skip_key (decode_pair part) rest

abbrev pub write_pair : Text × Text → Text
write_pair (k, v) = k ++ (b'=' ∷ v)

unfoldable pub canonical_query : Text → Text → Result Error Text
canonical_query [] skip_key = ok []
canonical_query (c ∷ raw) skip_key = do
  pairs ← of_option malformed (encoded_pairs skip_key (split b'&' (c ∷ raw)))
  ok (join b'&' (map write_pair (sort pair_lt pairs)))

abbrev or_slash : Text → Text
or_slash [] = b'/' ∷ []
or_slash (c ∷ s) = c ∷ s

abbrev absolute_form : Text → Bool
absolute_form uri = has_prefix uri (codes "http://") || has_prefix uri (codes "https://")

-- The path as it stood on the wire.
unfoldable pub canonical_uri : Platform → Request → Text
canonical_uri p r =
    let parsed = if absolute_form r.request_uri then p.request_uri_path r.request_uri else none in
    if is_nil r.request_uri
    then or_slash r.escaped_path
    else elim parsed [ some path ↦ or_slash path | none ↦ or_slash (cut b'?' r.request_uri).0 ]

abbrev declared_length : ℤ → List Text
declared_length (pos n) = decimal n ∷ []
declared_length (negsuc n) = []

-- The values of a header, with those that Go keeps in the request's own fields.
header_values : Request → Text → List Text
header_values r name =
    let given = Http.values r.header name in
    if text_eq name (codes "host")
    then (if is_nil r.host then r.url_host else r.host) ∷ []
    else if text_eq name (codes "content-length") && is_nil given
    then declared_length r.content_length
    else given

-- Values joined by commas, with single blanks inside.
unfoldable pub header_value : Request → Text → Text
unfolding header_values
header_value r name = join b',' (map (λ v. join b' ' (fields v)) (header_values r name))

unfoldable pub canonical_headers : Request → List Text → Text
canonical_headers r [] = []
canonical_headers r (name ∷ names) =
    name ++ (b':' ∷ header_value r name) ++ (b'\n' ∷ canonical_headers r names)

unfoldable pub build_canonical : Platform → Request → List Text → Text → Text → Result Error Text
build_canonical p r signed_headers skip_query_key payload_hash = do
  query ← canonical_query r.raw_query skip_query_key
  ok (
      join b'\n' (
        r.method
        ∷ canonical_uri p r
        ∷ query
        ∷ canonical_headers r signed_headers
        ∷ join b';' signed_headers
        ∷ payload_hash
        ∷ []))

abbrev pub declared_hash : Text → Text
declared_hash [] = empty_body_sha256
declared_hash (c ∷ s) = c ∷ s

unfoldable pub canonical_request : Platform → Request → List Text → Result Error Text
canonical_request p r signed_headers =
    build_canonical p r signed_headers []
      (declared_hash (Http.get r.header (codes "X-Amz-Content-Sha256")))
