-- ===== src/Platform.antt =====
-- The operations that the proxy calls and that the development takes as parameters: the hash
-- functions, and parsers of net/url, mime and regexp that it does not spell out.
use ozone_oidc_proxy.Base.{Option, Bool}
use ozone_oidc_proxy.Text.{Text}

pub record Platform : Type 0 where
  -- `sha256.Sum256`
  pub sha256 : Text → Text
  -- `hmac.New(sha256.New, key)`, one `Write` of the data, `Sum`
  pub hmac_sha256 : Text → Text → Text
  -- the `EscapedPath` of `url.ParseRequestURI`, `none` on an error
  pub request_uri_path : Text → Option Text
  -- the media type of `mime.ParseMediaType`, `none` on an error
  pub media_type : Text → Option Text
  -- the scheme and the host of `url.Parse`, `none` on an error
  pub parse_url : Text → Option (Text × Text)
  -- `regexp.Compile` and `MatchString`, `none` on an error
  pub compile_pattern : Text → Option (Text → Bool)
