-- ===== src/StubIssuer/Accepted.antt =====
-- What the stub issuer mints, the validator accepts.
use ozone_oidc_proxy.Base.{All, ◌≡◌, ◌≤◌, ◌<◌, ◌*◌, ◌++◌, [], ◌∷◌, some}
use ozone_oidc_proxy.Text.{Text, codes}
use ozone_oidc_proxy.Go.Clock.{Time, second}
use ozone_oidc_proxy.Oidc
use ozone_oidc_proxy.Oidc.{Jwt, Verdict, verified}
use ozone_oidc_proxy.Store.Mint.{base64url}
use ozone_oidc_proxy.StubIssuer.{Claims, Signer, kid}

-- What a JWS signature is made of, and the compact serialization (RFC 7515).
abbrev pub signing_input : Text → Text → Text
signing_input header payload = base64url header ++ (codes "." ++ base64url payload)

abbrev pub compact : (header payload sig : Text) → Text
compact header payload sig =
    base64url header ++ (codes "." ++ (base64url payload ++ (codes "." ++ base64url sig)))

module _ (j : Jwt) (s : Signer) (key : j.Key) where
  -- The token of the library has the claims.
  pub record Carries (c : Claims) (token : j.Token) : Type 0 where
    pub audience : j.audience token ≡ c.aud
    pub claim : j.claim token (codes "uid") ≡ some c.uid

  -- JSON keeps texts that are ASCII.
  pub record IsAscii (c : Claims) : Type 0 where
    pub iss : All (λ b. b < 128) c.iss
    pub uid : All (λ b. b < 128) c.uid
    pub aud : All (All (λ b. b < 128)) c.aud

  -- A JSON Web Token of the claims: the compact serialization of an RS256 header with the key id, of the
  -- claims, and of a signature of these two parts.
  pub record IsJws (c : Claims) (raw : Text) : Type 0 where
    pub payload : Text
    pub sig : Text
    pub encoded : s.encode_claims c ≡ some payload
    pub signed :
        s.sign_digest
          (s.sha256 (signing_input (s.encode_header (codes "RS256") (codes "JWT") kid) payload))
        ≡ some sig
    pub serialized : raw ≡ compact (s.encode_header (codes "RS256") (codes "JWT") kid) payload sig

  -- The library reads such tokens, where the claims are ASCII, and verifies them with the key, from `nbf`
  -- on and before `exp`.
  pub record IsReader : Type 0 where
    pub issuer :
        (c : Claims) (raw : Text) → IsAscii c → IsJws c raw → j.unverified_issuer raw ≡ some c.iss
    pub headers :
        (c : Claims) (raw : Text)
        → IsAscii c
        → IsJws c raw
        → j.protected_headers raw ≡ some ((codes "RS256", kid) ∷ [])
    pub parses :
        (c : Claims) (raw : Text) (at : Time)
        → IsAscii c
        → IsJws c raw
        → c.nbf * second ≤ at
        → at < c.exp * second
        → (token : j.Token) × (j.parse raw (codes "RS256") key at ≡ verified token)
          × Carries c token
