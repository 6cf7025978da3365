-- ===== src/Oidc/Sound/Exactly.antt =====
-- The validator accepts exactly the tokens that pass its checks.
use ozone_oidc_proxy.Base.{◌≡◌, ◌↔◌, sym, ap, ◌∙◌, true, false, ok, is_nil}
use ozone_oidc_proxy.Text.{Text}
use ozone_oidc_proxy.Go.Clock.{Time}
use ozone_oidc_proxy.Config.{Issuer, UsernamePolicy, validate_username}
use ozone_oidc_proxy.Oidc.{
  Identity, Jwt, username_of, identity_of, validate_with, select_issuer, Validator, validate,
}
use ozone_oidc_proxy.Oidc.Sound.{IsIdentityOf, IsValidated, lookup_key-cfg, validate-IsValidated}

module _ (j : Jwt) where
  IsIdentityOf-identity_of :
      (policy : UsernamePolicy) (cfg : Issuer) (token : j.Token) (who : Identity)
      → IsIdentityOf j policy cfg token who
      → identity_of j policy cfg token ≡ ok who
  unfolding identity_of
  IsIdentityOf-identity_of policy cfg token who d =
      let given : is_nil (username_of j cfg token) ≡ false = ap is_nil (sym d.user) ∙ d.given in
      let permitted : validate_username policy (username_of j cfg token) ≡ true =
        ap (validate_username policy) (sym d.user) ∙ d.permitted in
      rw (d.audience, given, permitted) (cc (d.user, d.subject, d.origin, d.origin_url, d.expiry))

  IsValidated-validate :
      (v : Validator j) (raw : Text) (now : Time) (who : Identity)
      → IsValidated j v raw now who
      → (validate j v raw now).0 ≡ ok who
  unfolding validate select_issuer validate_with
  IsValidated-validate v raw now who d =
      rw
        (
          d.given,
          d.named,
          d.known,
          d.allowed,
          d.found,
          d.signed,
          lookup_key-cfg j d.issuer v.world now d.kid,
        )
        (IsIdentityOf-identity_of v.policy d.issuer.cfg d.token who d.identity)

  -- The validator accepts a token exactly when it names a configured issuer and an allowed algorithm, is
  -- verified at this time with a key of that issuer, is meant for one of the issuer's audiences, and
  -- carries a user name that the username policy permits; the identity is then that of the token.
  pub validate_iff :
      (v : Validator j) (raw : Text) (now : Time) (who : Identity)
      → ((validate j v raw now).0 ≡ ok who) ↔ IsValidated j v raw now who
  validate_iff v raw now who =
      (validate-IsValidated j v raw now who, IsValidated-validate v raw now who)
