-- ===== src/Portal/Shown.antt =====
-- The page and the exchange together: the user sees the credentials that the store has.
use ozone_oidc_proxy.Base.{
  ℕ, ◌≤◌, ◌≡◌, refl, ap, subst, true, false, ◌||◌, ◌++◌, [], ◌∷◌, some, Result, ok, is_nil, length,
  take, arith, pos, suc, zero,
}
use ozone_oidc_proxy.Text.{Text}
use ozone_oidc_proxy.Text.Equality.{text_eq_of_eq}
use ozone_oidc_proxy.Config
use ozone_oidc_proxy.Go.Clock.{Time, format_rfc3339}
use ozone_oidc_proxy.Go.Form.{IsBytes, encode_form}
use ozone_oidc_proxy.Go.Http.{Request}
use ozone_oidc_proxy.Oidc.{Identity}
use ozone_oidc_proxy.Platform.{Platform}
use ozone_oidc_proxy.Portal.{
  Settings, StsCredentials, granted, Remote, bearer_token, session_name, exchange_form,
  exchange_request, body_limit, serve_home,
}
use ozone_oidc_proxy.Portal.Exchange.{checked-session_name}
use ozone_oidc_proxy.Store.{Credentials, Store}
use ozone_oidc_proxy.Store.Mint.{Randomness, akid_prefix, crockford}
use ozone_oidc_proxy.Sts.{
  Rejection, Grant, Granted, grant_document, TokenValidator, form_type, checked, issue, exchange,
}
use ozone_oidc_proxy.Sts.Exchange.{issue-IsGranted}
use ozone_oidc_proxy.Sts.Response.{Encoder, AssumeRoleResponse, respond, response_of, write_success}

-- The elements of the document that the page reads.
abbrev pub read_of : AssumeRoleResponse → StsCredentials
read_of a = record {
  access_key_id = a.result.credentials.access_key_id;
  secret_access_key = a.result.credentials.secret_access_key;
  session_token = a.result.credentials.session_token;
  expiration = a.result.credentials.expiration;
  subject = a.result.subject_from_web_identity_token;
}

-- What the page shows of credentials.
abbrev pub shown : Identity → Credentials → StsCredentials
shown i c = record {
  access_key_id = c.access_key_id;
  secret_access_key = c.secret_access_key;
  session_token = c.session_token;
  expiration = format_rfc3339 c.expires_at;
  subject = i.subject;
}

take_all : (n : ℕ) (s : Text) → length s ≤ n → take n s ≡ s
take_all zero [] h = refl
take_all zero (c ∷ s) h = absurd (omega (arith, h))
take_all (suc n) [] h = refl
take_all (suc n) (c ∷ s) h = ap (λ u. c ∷ u) (take_all n s (omega (arith, h)))

module _ (p : Platform) (cfg : Config.Sts) (limit : ℕ) (tv : TokenValidator) (st : Store)
    (xml : Encoder) (portal : Settings) (remote : Remote) where
  -- The portal's request for the user of a page, as the exchange receives it.
  abbrev pub asked_for : Request → Text → Request
  asked_for r host = exchange_request portal (bearer_token r) (session_name r) host

  abbrev pub grant_for : Request → Grant
  grant_for r = record {
    token = bearer_token r;
    role_arn = portal.role_arn;
    session_name = session_name r;
    requested = pos 0;
  }

  -- What the exchange accepts of a page's request, and what the page needs of the answer.
  pub record IsAdmitted (r : Request) : Type 0 where
    pub home : r.path ≡ b'/' ∷ []
    pub media : p.media_type form_type ≡ some form_type
    pub token_bytes : IsBytes (bearer_token r)
    pub token_given : is_nil (bearer_token r) ≡ false
    pub role_bytes : IsBytes portal.role_arn
    pub role_given : is_nil portal.role_arn ≡ false
    pub role_allowed :
        (is_nil cfg.role_arn_allowlist || Config.member portal.role_arn cfg.role_arn_allowlist)
        ≡ true
    pub fits : length (encode_form (exchange_form portal (bearer_token r) (session_name r))) ≤ limit

  -- The network delivers the answer of the exchange to the portal's form, and XML keeps what the page
  -- reads of it.
  pub record IsDelivered (r : Request) (answer : Result Rejection Granted) (message id : Text)
      : Type 0 where
    pub delivered :
        remote.post
          (portal.sts_endpoint ++ (b'/' ∷ []))
          (encode_form (exchange_form portal (bearer_token r) (session_name r)))
        ≡ some ((respond xml answer message id).status, (respond xml answer message id).body)
    pub short : length (respond xml answer message id).body ≤ body_limit
    pub decodes :
        (d : Granted)
        → answer ≡ ok d
        → remote.decode_credentials (write_success xml d id).body
          ≡ some (read_of (response_of d id))

  pub exchange-granted :
      (asked : Request) (g : Grant) (i : Identity) (c : Credentials) (random : Randomness)
      (now : Time) (v : tv.State) (s s' : st.State)
      → checked p cfg limit asked ≡ ok g
      → (tv.validate v g.token).0 ≡ ok i
      → issue st cfg g i random now s ≡ ok (c, s')
      → ((exchange tv st p cfg limit asked random now v s).response
          ≡ ok (grant_document tv st g i c))
        × ((exchange tv st p cfg limit asked random now v s).store ≡ s')
  unfolding exchange
  exchange-granted asked g i c random now v s s' accepted validated issued =
      (rw (accepted, validated, issued) refl, rw (accepted, validated, issued) refl)

  akid-is_nil : (akid bytes : Text) → akid ≡ akid_prefix ++ crockford bytes → is_nil akid ≡ false
  akid-is_nil akid bytes e = rw e refl

  serve_home-delivered :
      (r : Request) (g : Grant) (i : Identity) (c : Credentials) (message id : Text)
      → r.path ≡ b'/' ∷ []
      → is_nil (bearer_token r) ≡ false
      → is_nil c.access_key_id ≡ false
      → IsDelivered r (ok (grant_document tv st g i c)) message id
      → serve_home remote portal r ≡ granted (session_name r) portal.public_endpoint (shown i c)
  unfolding serve_home respond write_success
  serve_home-delivered r g i c message id home token_given key d =
      let at_home = text_eq_of_eq r.path (b'/' ∷ []) home in
      let body = (write_success xml (grant_document tv st g i c) id).body in
      rw
        (
          at_home,
          token_given,
          d.delivered,
          take_all body_limit body d.short,
          d.decodes (grant_document tv st g i c) refl,
          key,
        )
        refl

-- The page of a signed-in user shows the credentials that the exchange has minted for the user's
-- token and put into the store: where the validator accepts the token, the store takes the record, the
-- exchange accepts the form, and the answer is delivered. The expiration is shown in whole seconds.
pub serve_home-exchange :
    (p : Platform) (cfg : Config.Sts) (limit : ℕ) (tv : TokenValidator) (st : Store) (xml : Encoder)
    (portal : Settings) (remote : Remote) (r : Request) (host message id : Text)
    (random : Randomness) (now : Time) (v : tv.State) (s s' : st.State) (i : Identity)
    (c : Credentials)
    → IsAdmitted p cfg limit tv st xml portal remote r
    → (tv.validate v (bearer_token r)).0 ≡ ok i
    → issue st cfg (grant_for p cfg limit tv st xml portal remote r) i random now s ≡ ok (c, s')
    → IsDelivered p cfg limit tv st xml portal remote r
        (exchange tv st p cfg limit
          (asked_for p cfg limit tv st xml portal remote r host)
          random
          now
          v
          s).response
        message
        id
    → (serve_home remote portal r ≡ granted (session_name r) portal.public_endpoint (shown i c))
      × ((exchange tv st p cfg limit
            (asked_for p cfg limit tv st xml portal remote r host)
            random
            now
            v
            s).store
          ≡ s')
      × (st.put s c ≡ ok s')
serve_home-exchange p cfg limit tv st xml portal remote r host message id random now v s s' i c
      ready validated issued delivered =
    let g = grant_for p cfg limit tv st xml portal remote r in
    let (response, store) =
      exchange-granted p cfg limit tv st xml portal remote
        (asked_for p cfg limit tv st xml portal remote r host) g i c random now v s s'
        (checked-session_name p cfg limit portal (bearer_token r) host r ready.media
          ready.token_bytes ready.role_bytes ready.token_given ready.role_given ready.role_allowed
          ready.fits)
        validated issued in
    let (kept, put) = issue-IsGranted st cfg g i random now s c s' issued in
    (
      serve_home-delivered p cfg limit tv st xml portal remote r g i c message id ready.home
          ready.token_given
          (akid-is_nil p cfg limit tv st xml portal remote c.access_key_id kept.key.0 kept.key.1)
          (subst (λ a. IsDelivered p cfg limit tv st xml portal remote r a message id) response
            delivered),
      store,
      put,
    )
