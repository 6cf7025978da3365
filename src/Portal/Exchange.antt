-- ===== src/Portal/Exchange.antt =====
-- The exchange accepts what the portal sends.
use ozone_oidc_proxy.Base.{
  ℕ, zero, suc, ◌≤◌, ◌≡◌, refl, inl, inr, true, false, ◌||◌, [], ◌∷◌, arith, ltb, leb, is_nil,
  length, all, some, ok, pos, Bool-cases,
}
use ozone_oidc_proxy.Text.{Text, codes, text_eq}
use ozone_oidc_proxy.Sts.{
  is_session_name, is_session_char, checked, post_form, requested_of, form_type,
}
use ozone_oidc_proxy.Go.Http.{Request}
use ozone_oidc_proxy.Portal.{
  Settings, is_safe, kept, session_name_of, session_name, exchange_form, exchange_request,
}
use ozone_oidc_proxy.Config
use ozone_oidc_proxy.Go.Form.{IsBytes, AreFields, encode_form, parameters-encode_form}
use ozone_oidc_proxy.Go.Http.{values, canonical_key}
use ozone_oidc_proxy.Go.Query
use ozone_oidc_proxy.Go.Query.{has_bad_part, parameters, parameter}
use ozone_oidc_proxy.Text.{split_by}
use ozone_oidc_proxy.Platform.{Platform}

kept_fits : (room : ℕ) (s : Text) → length (kept room s) ≤ room
unfolding kept
kept_fits room [] = omega arith
kept_fits zero (c ∷ s) = omega arith
kept_fits (suc room) (c ∷ s) = ground (arith, kept_fits room s, kept_fits (suc room) s)

all_safe : (room : ℕ) (s : Text) → all is_safe (kept room s) ≡ true
unfolding kept
all_safe room [] = refl
all_safe zero (c ∷ s) = refl
all_safe (suc room) (c ∷ s) = elim (Bool-cases (is_safe c)) [
  | inl e ↦ rw (e, e, all_safe room s)
  | inr e ↦ rw e (all_safe (suc room) s)
]

safe-session_char : (s : Text) → all is_safe s ≡ true → all is_session_char s ≡ true
safe-session_char [] h = refl
safe-session_char (c ∷ s) h = ground (arith, safe-session_char s)

-- Every session name that the portal derives from a user name is one that the exchange accepts: 2 to
-- 64 characters, of its alphabet.
pub session_name-accepted : (r : Request) → is_session_name (session_name r) ≡ true
unfolding session_name session_name_of is_session_name
session_name-accepted r = accepted _
  where
    accepted : (raw : Text) → is_session_name (session_name_of raw) ≡ true
    accepted raw =
        let name = kept 64 raw in
        elim (Bool-cases (ltb (length name) 2)) [
          | inl short ↦ rw (session_name_of, short) refl
          | inr long ↦
              rw (session_name_of, long)
                (ground (arith, kept_fits 64 raw, safe-session_char name (all_safe 64 raw)))
        ]

safe-IsBytes : (s : Text) → all is_safe s ≡ true → IsBytes s
safe-IsBytes [] h = tt
safe-IsBytes (c ∷ s) h = (ground arith, safe-IsBytes s (ground arith))

pub short_word-IsBytes : (s : Text) → all (λ c. ltb c 256) s ≡ true → IsBytes s
short_word-IsBytes [] h = tt
short_word-IsBytes (c ∷ s) h = (ground arith, short_word-IsBytes s (ground arith))

session_name-IsBytes : (r : Request) → IsBytes (session_name r)
unfolding session_name session_name_of
session_name-IsBytes r = bytes _
  where
    bytes : (raw : Text) → IsBytes (session_name_of raw)
    bytes raw =
        let name = kept 64 raw in
        elim (Bool-cases (ltb (length name) 2)) [
          | inl short ↦ rw short (short_word-IsBytes (codes "portal") refl)
          | inr long ↦ rw long (safe-IsBytes name (all_safe 64 raw))
        ]

named_ne_nil : (s : Text) → is_session_name s ≡ true → is_nil s ≡ false
unfolding is_session_name
named_ne_nil [] h = cc
named_ne_nil (c ∷ s) h = refl

module _ (p : Platform) (portal : Settings) (token username host : Text) (limit : ℕ)
    (token_bytes : IsBytes token) (arn_bytes : IsBytes portal.role_arn)
    (name_bytes : IsBytes username)
    (fits : length (encode_form (exchange_form portal token username)) ≤ limit)
    (media : p.media_type form_type ≡ some form_type) where
  exchange_form-AreFields : AreFields (exchange_form portal token username)
  exchange_form-AreFields =
      let word = short_word-IsBytes in
      (
        (word (codes "Action") refl, word (codes "AssumeRoleWithWebIdentity") refl),
        (
          (word (codes "RoleArn") refl, arn_bytes),
          (
            (word (codes "RoleSessionName") refl, name_bytes),
            (
              (word (codes "Version") refl, word (codes "2011-06-15") refl),
              ((word (codes "WebIdentityToken") refl, token_bytes), tt),
            ),
          ),
        ),
      )

  -- The exchange reads the form that the portal has written.
  post_form-exchange_request :
      post_form p limit (exchange_request portal token username host)
      ≡ some (exchange_form portal token username)
  unfolding post_form exchange_request values canonical_key text_eq has_bad_part split_by
  post_form-exchange_request =
      let (read, fine) =
        parameters-encode_form (exchange_form portal token username) (cc) exchange_form-AreFields in
      let small : leb (length (encode_form (exchange_form portal token username))) limit ≡ true =
        ground arith in
      rw (small, fine, read, media)

  checked-exchange_request :
      (cfg : Config.Sts)
      → is_nil token ≡ false
      → is_nil portal.role_arn ≡ false
      → (is_nil cfg.role_arn_allowlist || Config.member portal.role_arn cfg.role_arn_allowlist)
        ≡ true
      → is_session_name username ≡ true
      → checked p cfg limit (exchange_request portal token username host)
        ≡ ok (record {
          token = token;
          role_arn = portal.role_arn;
          session_name = username;
          requested = pos 0;
        })
  unfolding checked exchange_request Query.get text_eq requested_of
  checked-exchange_request cfg some_token some_role allowed named = rw (
    post_form-exchange_request,
    some_token,
    some_role,
    allowed,
    named_ne_nil username named,
    named,
  )

-- The form that the portal posts for a user passes every check of the exchange up to the token, which
-- is then validated, when token and role are bytes and not empty, the role is allowed, and the form
-- is not too long.
pub checked-session_name :
    (p : Platform) (cfg : Config.Sts) (limit : ℕ) (portal : Settings) (token host : Text)
    (r : Request)
    → p.media_type form_type ≡ some form_type
    → IsBytes token
    → IsBytes portal.role_arn
    → is_nil token ≡ false
    → is_nil portal.role_arn ≡ false
    → (is_nil cfg.role_arn_allowlist || Config.member portal.role_arn cfg.role_arn_allowlist) ≡ true
    → length (encode_form (exchange_form portal token (session_name r))) ≤ limit
    → checked p cfg limit (exchange_request portal token (session_name r) host)
      ≡ ok (record {
        token = token;
        role_arn = portal.role_arn;
        session_name = session_name r;
        requested = pos 0;
      })
checked-session_name p cfg limit portal token host r media tb rb some_token some_role allowed fits =
    checked-exchange_request p portal token (session_name r) host limit tb rb
      (session_name-IsBytes r) fits media cfg some_token some_role allowed (session_name-accepted r)
