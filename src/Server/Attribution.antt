-- ===== src/Server/Attribution.antt =====
-- The identity that a forwarded request carries, in every forward mode.
use ozone_oidc_proxy.Base.{◌≡◌, refl, inl, inr, Bool-cases, false, Option, none, some, [], is_nil}
use ozone_oidc_proxy.Text.{Text, codes, text_eq}
use ozone_oidc_proxy.Go.Clock.{Time, format_amz}
use ozone_oidc_proxy.Go.Http
use ozone_oidc_proxy.Go.Http.{Request, canonical_key}
use ozone_oidc_proxy.Go.Http.Laws.{values-set, values-set_self, values-del_self}
use ozone_oidc_proxy.Config.{Config, mode_resign}
use ozone_oidc_proxy.Forward.{security_token, apply_resign, resign_input, synthetic, rewritten}
use ozone_oidc_proxy.Forward.Identity.{
  IsAttributed, rewrite_access_key_id-IsAttributed, apply_synthetic-IsAttributed,
}
use ozone_oidc_proxy.Platform.{Platform}
use ozone_oidc_proxy.SigV4.{Error, Authorization}
use ozone_oidc_proxy.SigV4.Presign.{unsigned_payload}
use ozone_oidc_proxy.SigV4.Sign.{SignInput, prepare, sign, authorize, signed_authorization}
use ozone_oidc_proxy.SigV4.Sign.Accepted.{sign-eq-ok}
use ozone_oidc_proxy.Server.{apply_identity, fall_back, signed_or}

token_keys :
    (text_eq (canonical_key (codes "X-Amz-Date")) (canonical_key security_token) ≡ false)
    × (text_eq (canonical_key (codes "X-Amz-Content-Sha256")) (canonical_key security_token)
        ≡ false)
    × (text_eq (canonical_key (codes "Authorization")) (canonical_key security_token) ≡ false)
unfolding canonical_key text_eq
token_keys = (refl, refl, refl)

prepare-no_token :
    (i : SignInput)
    → Http.values i.request.header security_token ≡ []
    → Http.values (prepare i).header security_token ≡ []
unfolding prepare
prepare-no_token i h =
    let dated = Http.set i.request.header (codes "X-Amz-Date") (format_amz i.now) in
    let e1 = values-set i.request.header (codes "X-Amz-Date") (format_amz i.now) security_token in
    elim (Bool-cases (is_nil (Http.get dated (codes "X-Amz-Content-Sha256")))) [
      | inl e ↦
          rw
            (
              e,
              values-set dated (codes "X-Amz-Content-Sha256") unsigned_payload security_token,
              token_keys.1,
              e1,
              token_keys.0,
            )
            h
      | inr e ↦ rw (e, e1, token_keys.0) h
    ]

authorize-IsAttributed :
    (r : Request) (a : Authorization)
    → Http.values r.header security_token ≡ []
    → IsAttributed (authorize r a) a
unfolding authorize
authorize-IsAttributed r a h = record {
  header = rw values-set_self;
  no_token = rw (values-set r.header (codes "Authorization") _ security_token, token_keys.2) h;
}

-- A request that is attributed to a user: to fields whose access key is the user.
abbrev pub IsAttributedTo : Request → Text → Type 0
IsAttributedTo r username = (a : Authorization) × IsAttributed r a × (a.access_key_id ≡ username)

signed_access_key :
    (p : Platform) (i : SignInput) (canonical : Text)
    → (signed_authorization p i canonical).access_key_id ≡ i.access_key_id
unfolding signed_authorization
signed_access_key p i canonical = refl

module _ (p : Platform) (cfg : Config) (host : Text) (username : Text) (now : Time) where
  fall_back-IsAttributedTo :
      (r : Request) (auth : Option Authorization)
      → IsAttributedTo (fall_back p cfg host r username auth now) username
  fall_back-IsAttributedTo r none = (
    synthetic username cfg.security.region now,
    apply_synthetic-IsAttributed r username _ now,
    refl,
  )
  fall_back-IsAttributedTo r (some auth) =
      (rewritten auth username, rewrite_access_key_id-IsAttributed r auth username, refl)

module _ (p : Platform) (cfg : Config) (host : Text) (username : Text) (now : Time) where
  signed_or-IsAttributedTo :
      (later : Time) (r : Request) (auth : Option Authorization) (x : Request × Option Error)
      → sign p (resign_input r username host cfg.security.region now) ≡ x
      → IsAttributedTo (signed_or p cfg host username auth later x) username
  signed_or-IsAttributedTo later r auth (sent, some e) h =
      fall_back-IsAttributedTo p cfg host username later sent auth
  signed_or-IsAttributedTo later r auth (sent, none) h =
      let i = resign_input r username host cfg.security.region now in
      let (canonical, built, same) = sign-eq-ok p i sent h in
      let a = signed_authorization p i canonical in
      (
        a,
        rw same (
            authorize-IsAttributed (prepare i) a
              (prepare-no_token i (values-del_self r.header security_token))),
        signed_access_key p i canonical,
      )

  -- In every forward mode, and also when signing fails, the request that is sent upstream has the
  -- Authorization header of fields whose access key is the user, and no session token.
  pub apply_identity-IsAttributedTo :
      (later : Time) (r : Request) (auth : Option Authorization)
      → IsAttributedTo (apply_identity p cfg host r username auth now later) username
  unfolding apply_identity apply_resign
  apply_identity-IsAttributedTo later r auth =
      elim (Bool-cases (text_eq cfg.upstream.forward_mode mode_resign)) [
        | inl e ↦ rw e (signed_or-IsAttributedTo later r auth _ refl)
        | inr e ↦ rw e (fall_back-IsAttributedTo p cfg host username now r auth)
      ]
