-- ===== src/SigV4/Sign.antt =====
-- internal/sigv4/sign.go. A failed call has changed the request already, so the request is returned
-- beside the error.
pub mod Headers
pub mod Accepted
pub mod Written
use ozone_oidc_proxy.Base.{
  Bool, true, false, List, [], ◌∷◌, ◌++◌, if◌then◌else◌, is_nil, take, Option, none, some, Result,
  ok, err,
}
use ozone_oidc_proxy.Text.{Text, codes, has_prefix, text_lt, to_lower}
use ozone_oidc_proxy.Text.Sort.{sort}
use ozone_oidc_proxy.Go.Clock.{Time, format_amz}
use ozone_oidc_proxy.Go.Http
use ozone_oidc_proxy.Go.Http.{Header, Request}
use ozone_oidc_proxy.Platform.{Platform}
use ozone_oidc_proxy.SigV4.{Error, Authorization, authorization_header}
use ozone_oidc_proxy.SigV4.Canonical.{build_canonical}
use ozone_oidc_proxy.SigV4.Presign.{unsigned_payload}
use ozone_oidc_proxy.SigV4.Verify.{expected_signature}

-- The x-amz-* headers of a request, in lower case.
unfoldable pub amz_names : Header → List Text
amz_names [] = []
amz_names ((key, vs) ∷ h) =
    let rest = amz_names h in
    let name = to_lower key in if has_prefix name (codes "x-amz-") then name ∷ rest else rest

unfoldable pub signed_header_names : Header → List Text
signed_header_names h = sort text_lt (codes "host" ∷ amz_names h)

pub record SignInput : Type 0 where
  pub request : Request
  pub access_key_id : Text
  pub secret : Text
  pub region : Text
  pub service : Text
  pub host : Text
  pub now : Time

-- The request with host, date and payload hash set, before it is signed.
unfoldable pub prepare : SignInput → Request
prepare i =
    let r = i.request in
    let dated = Http.set r.header (codes "X-Amz-Date") (format_amz i.now) in
    let declared = Http.get dated (codes "X-Amz-Content-Sha256") in
    record r {
      host = if is_nil i.host then r.host else i.host;
      header =
          if is_nil declared
          then Http.set dated (codes "X-Amz-Content-Sha256") unsigned_payload
          else dated;
    }

-- The fields of the new Authorization header.
unfoldable pub signed_authorization : Platform → SignInput → Text → Authorization
signed_authorization p i canonical =
    let amz_date = format_amz i.now in
    let date = take 8 amz_date in
    record {
      access_key_id = i.access_key_id;
      date = date;
      region = i.region;
      service = i.service;
      signed_headers = signed_header_names (prepare i).header;
      signature = expected_signature p i.secret amz_date date i.region i.service canonical;
    }

unfoldable pub authorize : Request → Authorization → Request
authorize r a = record r {
  header = Http.set r.header (codes "Authorization") (authorization_header a);
}

unfoldable pub sign : Platform → SignInput → Request × Option Error
sign p i =
    let r = prepare i in
    let hash = Http.get r.header (codes "X-Amz-Content-Sha256") in
    elim (build_canonical p r (signed_header_names r.header) [] hash) [
      | err e ↦ (r, some e)
      | ok canonical ↦ (authorize r (signed_authorization p i canonical), none)
    ]
