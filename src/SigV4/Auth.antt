-- ===== src/SigV4/Auth.antt =====
-- internal/sigv4/sigv4.go, `IsSigV4` and `ParseAuthorization`.
pub mod WellFormed
pub mod RoundTrip
pub mod Setters
use ozone_oidc_proxy.Base.{
  ℕ, Bool, true, false, not, ◌&&◌, ◌||◌, List, [], ◌∷◌, ◌++◌, ◌==◌, if◌then◌else◌, length, is_nil,
  Result, ok, err, ◌>>=◌, of_option,
}
use ozone_oidc_proxy.Text.{
  Text, codes, text_eq, has_prefix, cut_prefix, cut, split, trim_space, to_lower,
}
use ozone_oidc_proxy.Go.Hex.{decodes_hex}
use ozone_oidc_proxy.SigV4.{Error, malformed, Authorization, algorithm, aws4_request}

unfoldable pub is_sigv4 : Text → Bool
is_sigv4 header = has_prefix header (algorithm ++ (b' ' ∷ []))

abbrev pub no_authorization : Authorization
no_authorization = record {
  access_key_id = [];
  date = [];
  region = [];
  service = [];
  signed_headers = [];
  signature = [];
}

set_scope : Authorization → List Text → Result Error Authorization
set_scope a (akid ∷ date ∷ region ∷ service ∷ last ∷ []) =
    if text_eq last aws4_request && not (is_nil akid) && length date == 8
    then ok (record a { access_key_id = akid; date = date; region = region; service = service })
    else err malformed
set_scope a _ = err malformed

unfoldable pub set_credential : Authorization → Text → Result Error Authorization
unfolding set_scope
set_credential a value = set_scope a (split b'/' value)

-- The loop of `setSignedHeaders`.
add_headers : Authorization → List Text → Result Error Authorization
add_headers a [] = ok a
add_headers a (h ∷ hs) =
    let name = to_lower (trim_space h) in
    let rest = add_headers (record a { signed_headers = a.signed_headers ++ (name ∷ []) }) hs in
    if is_nil name then err malformed else rest

unfoldable pub set_signed_headers : Authorization → Text → Result Error Authorization
unfolding add_headers
set_signed_headers a value = add_headers a (split b';' value)

unfoldable pub set_signature : Authorization → Text → Result Error Authorization
set_signature a value =
    let sig = to_lower (trim_space value) in
    if length sig == 64 && decodes_hex sig then ok (record a { signature = sig }) else err malformed

-- The `switch` on a component's key.
set_component : Authorization → Text → Text → Result Error Authorization
set_component a key value =
    if text_eq key (codes "Credential")
    then set_credential a value
    else if text_eq key (codes "SignedHeaders")
    then set_signed_headers a value
    else if text_eq key (codes "Signature")
    then set_signature a value
    else err malformed

-- One trimmed part of the header; an empty one is skipped.
component : Authorization → Text → Result Error Authorization
unfolding set_component
component a part =
    let (key, value, found) = cut b'=' part in
    if is_nil part then ok a else if found then set_component a key value else err malformed

components : Authorization → List Text → Result Error Authorization
components a [] = ok a
components a (part ∷ parts) = do b ← component a (trim_space part); components b parts

complete : Authorization → Result Error Authorization
complete a =
    if is_nil a.access_key_id || is_nil a.signed_headers || is_nil a.signature
    then err malformed
    else ok a

unfoldable pub parse_authorization : Text → Result Error Authorization
unfolding components component complete
parse_authorization header = do
  rest ← of_option malformed (cut_prefix header algorithm)
  auth ← components no_authorization (split b',' rest)
  complete auth
