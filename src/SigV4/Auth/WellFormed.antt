-- ===== src/SigV4/Auth/WellFormed.antt =====
-- What an accepted Authorization header is known to hold.
use ozone_oidc_proxy.Base.{
  ◌≡◌, refl, ◌≢◌, ◌⊎◌, inl, inr, true, false, List, [], ◌∷◌, ◌++◌, arith, ◌==◌, length, is_nil, all,
  All, All-append, ok, >>=-eq-ok, of_option, Bool-cases,
}
use ozone_oidc_proxy.Text.{Text, cut_prefix, split, to_lower, trim_space, cut}
use ozone_oidc_proxy.Text.Parts.{Lacks, split_by-All-Lacks}
use ozone_oidc_proxy.Text.Trim.{to_lower_idem}
use ozone_oidc_proxy.Go.Hex.{is_hex, is_lower_hex, decodes_hex}
use ozone_oidc_proxy.SigV4.{Authorization, algorithm}
use ozone_oidc_proxy.SigV4.Auth.{
  no_authorization, set_scope, set_credential, add_headers, set_signed_headers, set_signature,
  component, components, complete, parse_authorization,
}

abbrev pub IsHeaderName : Text → Type 0
IsHeaderName h = (h ≢ []) × (to_lower h ≡ h)

abbrev pub IsSignature : Text → Type 0
IsSignature s = (length s ≡ 64) × All (λ c. is_lower_hex c ≡ true) s

abbrev pub NoSlash : Text → Type 0
NoSlash = Lacks (λ c. c == b'/')

-- The fields so far: an absent field is empty.
pub record IsPartial (a : Authorization) : Type 0 where
  pub key : NoSlash a.access_key_id
  pub date : a.access_key_id ≢ [] → length a.date ≡ 8
  pub headers : All IsHeaderName a.signed_headers
  pub signature : (a.signature ≡ []) ⊎ IsSignature a.signature

pub record IsWellFormed (a : Authorization) : Type 0 where
  pub key : a.access_key_id ≢ []
  pub key_no_slash : NoSlash a.access_key_id
  pub date : length a.date ≡ 8
  pub headers_ne_nil : a.signed_headers ≢ []
  pub headers : All IsHeaderName a.signed_headers
  pub signature : IsSignature a.signature

pub no_authorization-IsPartial : IsPartial no_authorization
no_authorization-IsPartial = record {
  key = tt;
  date = λ h. absurd (h refl);
  headers = tt;
  signature = inl refl;
}

set_scope-IsPartial :
    (ps : List Text) (a : Authorization) {b : Authorization}
    → All NoSlash ps
    → IsPartial a
    → set_scope a ps ≡ ok b
    → IsPartial b
unfolding set_scope
set_scope-IsPartial (akid ∷ date ∷ region ∷ service ∷ last ∷ []) a hs v e = ground arith
set_scope-IsPartial _ a hs v e = cc

pub set_credential-IsPartial :
    (a b : Authorization) (s : Text) → IsPartial a → set_credential a s ≡ ok b → IsPartial b
unfolding set_credential
set_credential-IsPartial a b s v e =
    set_scope-IsPartial (split b'/' s) a (split_by-All-Lacks (λ c. c == b'/') s) v e

push-IsPartial :
    (a : Authorization) (name : Text)
    → IsPartial a
    → IsHeaderName name
    → IsPartial (record a { signed_headers = a.signed_headers ++ (name ∷ []) })
push-IsPartial a name v h = record {
  key = v.key;
  date = v.date;
  headers = All-append IsHeaderName a.signed_headers (name ∷ []) v.headers (h, tt);
  signature = v.signature;
}

is_nil→ne : (s : Text) → is_nil s ≡ false → s ≢ []
is_nil→ne s h = ground arith

add_headers-IsPartial :
    (hs : List Text) (a : Authorization) {b : Authorization}
    → IsPartial a
    → add_headers a hs ≡ ok b
    → IsPartial b
unfolding add_headers
add_headers-IsPartial [] a v e = ground arith
add_headers-IsPartial (h ∷ hs) a v e =
    let name = to_lower (trim_space h) in
    elim (Bool-cases (is_nil name)) [
      | inl empty ↦ cc (rw empty at e)
      | inr full ↦
          add_headers-IsPartial hs (record a { signed_headers = a.signed_headers ++ (name ∷ []) })
            (push-IsPartial a name v (is_nil→ne name full, to_lower_idem (trim_space h)))
            (rw full at e)
    ]

pub set_signed_headers-IsPartial :
    (a b : Authorization) (s : Text) → IsPartial a → set_signed_headers a s ≡ ok b → IsPartial b
unfolding set_signed_headers
set_signed_headers-IsPartial a b s v e = add_headers-IsPartial (split b';' s) a v e

all_lower_hex :
    (s : Text) → all is_hex (to_lower s) ≡ true → All (λ c. is_lower_hex c ≡ true) (to_lower s)
unfolding to_lower
all_lower_hex [] h = tt
all_lower_hex (c ∷ s) h = (ground arith, all_lower_hex s (ground arith))

pub set_signature-IsPartial :
    (a b : Authorization) (s : Text) → IsPartial a → set_signature a s ≡ ok b → IsPartial b
unfolding set_signature decodes_hex
set_signature-IsPartial a b s v e = ground (arith, all_lower_hex (trim_space s))

component-IsPartial :
    (a b : Authorization) (part : Text) → IsPartial a → component a part ≡ ok b → IsPartial b
unfolding component
component-IsPartial a b part v e = ground (
  arith,
  set_credential-IsPartial a b (cut b'=' part).1 v,
  set_signed_headers-IsPartial a b (cut b'=' part).1 v,
  set_signature-IsPartial a b (cut b'=' part).1 v,
)

components-IsPartial :
    (parts : List Text) (a : Authorization) {b : Authorization}
    → IsPartial a
    → components a parts ≡ ok b
    → IsPartial b
unfolding components
components-IsPartial [] a v e = ground arith
components-IsPartial (part ∷ parts) a v e =
    let (c, first, rest) = >>=-eq-ok (component a (trim_space part)) _ e in
    components-IsPartial parts c (component-IsPartial a c (trim_space part) v first) rest

complete-IsWellFormed :
    (a : Authorization) {b : Authorization} → IsPartial a → complete a ≡ ok b → IsWellFormed b
unfolding complete
complete-IsWellFormed a v e = ground arith

-- Whatever the bytes of the header, an accepted one has a key without slashes, a date of eight
-- characters, header names that are not empty and in lower case, and a signature of 64 digits.
pub parse_authorization-IsWellFormed :
    (header : Text) {a : Authorization} → parse_authorization header ≡ ok a → IsWellFormed a
unfolding parse_authorization
parse_authorization-IsWellFormed header e =
    let (rest, _, e') = >>=-eq-ok (of_option _ (cut_prefix header algorithm)) _ e in
    let (b, parsed, done) = >>=-eq-ok (components no_authorization (split b',' rest)) _ e' in
    complete-IsWellFormed b
      (components-IsPartial _ no_authorization no_authorization-IsPartial parsed) done
