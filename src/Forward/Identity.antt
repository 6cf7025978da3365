-- ===== src/Forward/Identity.antt =====
-- The identity that the forwarded request carries.
use ozone_oidc_proxy.Base.{
  Any, ◌↔◌, take, sym, ◌≡◌, refl, ap, ◌∙◌, ◌≢◌, Bool, true, false, List, [], ◌∷◌, arith, all, All,
  ok, Bool-cases, inl, inr,
}
use ozone_oidc_proxy.Text.{Text, codes, text_eq, to_lower}
use ozone_oidc_proxy.Text.Equality.{text_eq_sound, text_eq_of_eq}
use ozone_oidc_proxy.Go.Clock.{Time, format_date, format_amz}
use ozone_oidc_proxy.Go.Clock.Format.{
  take-format_amz, IsDigits, length-format_date, format_date-IsDigits,
}
use ozone_oidc_proxy.Go.Hex.{is_lower_hex}
use ozone_oidc_proxy.Go.Http
use ozone_oidc_proxy.Go.Http.{Header, Request, canonical_key}
use ozone_oidc_proxy.Go.Http.Laws.{values-set, values-del, values-set_self, values-del_self}
use ozone_oidc_proxy.SigV4.{Authorization, authorization_header}
use ozone_oidc_proxy.SigV4.Auth.{parse_authorization}
use ozone_oidc_proxy.SigV4.Auth.RoundTrip.{
  IsField, IsWritable, parse_authorization-authorization_header, all-IsField,
}
use ozone_oidc_proxy.SigV4.Auth.WellFormed.{IsHeaderName, IsSignature}
use ozone_oidc_proxy.Forward.{
  security_token, token_name, service_s3, junk_signature, synthetic, apply_synthetic, without_token,
  rewritten, rewrite_access_key_id,
}

-- A request that is attributed to these fields: its Authorization header spells them, and there is
-- no session token.
pub record IsAttributed (r : Request) (a : Authorization) : Type 0 where
  pub header : Http.get r.header (codes "Authorization") ≡ authorization_header a
  pub no_token : Http.values r.header security_token ≡ []

-- Whether two names are those of the same header.
abbrev pub key_eq : Text → Text → Bool
key_eq k j = text_eq (canonical_key k) (canonical_key j)

keys :
    (key_eq security_token (codes "Authorization") ≡ false)
    × (key_eq (codes "X-Amz-Content-Sha256") (codes "Authorization") ≡ false)
    × (key_eq (codes "X-Amz-Date") (codes "Authorization") ≡ false)
unfolding canonical_key text_eq
keys = (refl, refl, refl)

pub rewrite_access_key_id-IsAttributed :
    (r : Request) (a : Authorization) (username : Text)
    → IsAttributed (rewrite_access_key_id r a username) (rewritten a username)
unfolding rewrite_access_key_id
rewrite_access_key_id-IsAttributed r a username =
    let h =
      Http.set r.header (codes "Authorization") (authorization_header (rewritten a username)) in
    record {
      header = rw (values-del h security_token (codes "Authorization"), keys.0, values-set_self);
      no_token = values-del_self h security_token;
    }

pub apply_synthetic-IsAttributed :
    (r : Request) (username region : Text) (now : Time)
    → IsAttributed (apply_synthetic r username region now) (synthetic username region now)
unfolding apply_synthetic
apply_synthetic-IsAttributed r username region now =
    let a = synthetic username region now in
    let h = Http.set r.header (codes "Authorization") (authorization_header a) in
    let i = Http.set h (codes "X-Amz-Date") (format_amz now) in
    let k = Http.set i (codes "X-Amz-Content-Sha256") (codes "UNSIGNED-PAYLOAD") in
    record {
      header = rw (
        values-del k security_token (codes "Authorization"),
        keys.0,
        values-set i (codes "X-Amz-Content-Sha256") (codes "UNSIGNED-PAYLOAD")
            (codes "Authorization"),
        keys.1,
        values-set h (codes "X-Amz-Date") (format_amz now) (codes "Authorization"),
        keys.2,
        values-set_self,
      );
      no_token = values-del_self k security_token;
    }

pub digits-IsField : (s : Text) → IsDigits s → IsField s
digits-IsField [] h = tt
digits-IsField (c ∷ s) (p, h) = (ground arith, digits-IsField s h)

junk-IsSignature : IsSignature junk_signature
junk-IsSignature = (refl, lower_hex junk_signature refl)
  where
    lower_hex : (s : Text) → all is_lower_hex s ≡ true → All (λ c. is_lower_hex c ≡ true) s
    lower_hex [] h = tt
    lower_hex (c ∷ s) h = (ground arith, lower_hex s (ground arith))

-- A user name that fits between the delimiters of the header.
pub record IsCarried (username : Text) : Type 0 where
  pub named : username ≢ []
  pub field : IsField username

pub synthetic-IsWritable :
    (username region : Text) (now : Time)
    → IsCarried username
    → IsField region
    → IsWritable (synthetic username region now)
unfolding to_lower
synthetic-IsWritable username region now u reg = record {
  key = u.named;
  key_field = u.field;
  date = length-format_date now;
  date_field = digits-IsField (format_date now) (format_date-IsDigits now);
  region_field = reg;
  service_field = all-IsField service_s3 refl;
  headers_ne_nil = cc;
  headers = ((cc, refl), ((cc, refl), tt));
  header_fields = (all-IsField (codes "host") refl, (all-IsField (codes "x-amz-date") refl, tt));
  signature = junk-IsSignature;
}

without_token-All : (P : Text → Type 0) (hs : List Text) → All P hs → All P (without_token hs)
unfolding without_token
without_token-All P [] h = tt
without_token-All P (x ∷ hs) (p, h) = elim (Bool-cases (text_eq x token_name)) [
  | inl e ↦ rw e (without_token-All P hs h)
  | inr e ↦ rw e (p, without_token-All P hs h)
]

-- What the client's fields need for the rewritten header to be readable.
pub rewritten-IsWritable :
    (a : Authorization) (username : Text)
    → IsWritable a
    → IsCarried username
    → without_token a.signed_headers ≢ []
    → IsWritable (rewritten a username)
rewritten-IsWritable a username w u ne = record {
  key = u.named;
  key_field = u.field;
  date = w.date;
  date_field = w.date_field;
  region_field = w.region_field;
  service_field = w.service_field;
  headers_ne_nil = ne;
  headers = without_token-All IsHeaderName a.signed_headers w.headers;
  header_fields = without_token-All IsField a.signed_headers w.header_fields;
  signature = w.signature;
}

without_token-Any :
    (h : Text) (hs : List Text)
    → Any (λ x. x ≡ h) (without_token hs)
      ↔ (Any (λ x. x ≡ h) hs × (h ≢ codes "x-amz-security-token"))
unfolding without_token
without_token-Any h [] = (λ x. elim x [ ], λ (x, ne). elim x [ ])
without_token-Any h (k ∷ hs) =
    let (there, back) = without_token-Any h hs in
    elim (Bool-cases (text_eq k token_name)) [
      | inl e ↦
          let is_token : k ≡ token_name = text_eq_sound k token_name e in
          rw e (
            λ m. let (x, ne) = there m in (inr x, ne),
            λ (x, ne). elim x [
              | inl is_k ↦ absurd (ne (sym is_k ∙ is_token))
              | inr y ↦ back (y, ne)
            ],
          )
      | inr e ↦
          let differs : k ≢ token_name = λ q. cc (text_eq_of_eq k token_name q, e) in
          rw e (
            λ m. elim m [
              | inl is_k ↦ (inl is_k, λ q. differs (is_k ∙ q))
              | inr y ↦ let (x, ne) = there y in (inr x, ne)
            ],
            λ (x, ne). elim x [ inl is_k ↦ inl is_k | inr y ↦ inr (back (y, ne)) ],
          )
    ]

-- What the gateway reads of a request that has been sent for the client's request, with these fields of
-- the client, as this user.
pub record IsRewritten (r : Request) (a : Authorization) (username : Text) (sent : Request)
    : Type 0 where
  pub read : Authorization
  pub parsed : parse_authorization (Http.get sent.header (codes "Authorization")) ≡ ok read
  pub access_key_id : read.access_key_id ≡ username
  pub date : read.date ≡ a.date
  pub region : read.region ≡ a.region
  pub service : read.service ≡ a.service
  pub signature : read.signature ≡ a.signature
  pub signed_headers :
      (h : Text)
      → Any (λ x. x ≡ h) read.signed_headers
        ↔ (Any (λ x. x ≡ h) a.signed_headers × (h ≢ codes "x-amz-security-token"))
  pub no_token : Http.values sent.header (codes "X-Amz-Security-Token") ≡ []
  pub others :
      (name : Text)
      → key_eq (codes "Authorization") name ≡ false
      → key_eq (codes "X-Amz-Security-Token") name ≡ false
      → Http.values sent.header name ≡ Http.values r.header name

-- The gateway reads of the rewritten header the user as the access key, and the date, the region, the
-- service and the signature of the client; the signed headers are those of the client but for the session
-- token. There is no session token any more, and every other header is as it was. This holds for writable
-- fields that sign another header, and a user name without delimiters.
pub rewrite_access_key_id-parse :
    (r : Request) (a : Authorization) (username : Text)
    → IsWritable a
    → IsCarried username
    → without_token a.signed_headers ≢ []
    → IsRewritten r a username (rewrite_access_key_id r a username)
unfolding rewrite_access_key_id
rewrite_access_key_id-parse r a username w u ne =
    let sent = rewrite_access_key_id-IsAttributed r a username in
    record {
      read = rewritten a username;
      parsed =
          ap parse_authorization sent.header
          ∙ parse_authorization-authorization_header _ (rewritten-IsWritable a username w u ne);
      access_key_id = refl;
      date = refl;
      region = refl;
      service = refl;
      signature = refl;
      signed_headers = λ h. without_token-Any h a.signed_headers;
      no_token = sent.no_token;
      others = λ name other token.
          rw
            (
              values-del
                  (Http.set r.header (codes "Authorization")
                    (authorization_header (rewritten a username)))
                  security_token name,
              token,
              values-set r.header (codes "Authorization")
                  (authorization_header (rewritten a username)) name,
              other,
            )
            refl;
    }

date_keys :
    (key_eq security_token (codes "X-Amz-Date") ≡ false)
    × (key_eq (codes "X-Amz-Content-Sha256") (codes "X-Amz-Date") ≡ false)
    × (key_eq security_token (codes "X-Amz-Content-Sha256") ≡ false)
unfolding canonical_key text_eq
date_keys = (refl, refl, refl)

apply_synthetic-headers :
    (r : Request) (username region : Text) (now : Time)
    → (Http.get (apply_synthetic r username region now).header (codes "X-Amz-Date")
        ≡ format_amz now)
      × (Http.get (apply_synthetic r username region now).header (codes "X-Amz-Content-Sha256")
          ≡ codes "UNSIGNED-PAYLOAD")
unfolding apply_synthetic
apply_synthetic-headers r username region now =
    let h =
      Http.set r.header (codes "Authorization")
        (authorization_header (synthetic username region now)) in
    let i = Http.set h (codes "X-Amz-Date") (format_amz now) in
    let k = Http.set i (codes "X-Amz-Content-Sha256") (codes "UNSIGNED-PAYLOAD") in
    (
      rw (
        values-del k security_token (codes "X-Amz-Date"),
        date_keys.0,
        values-set i (codes "X-Amz-Content-Sha256") (codes "UNSIGNED-PAYLOAD") (codes "X-Amz-Date"),
        date_keys.1,
        values-set_self h (codes "X-Amz-Date") (format_amz now),
      ),
      rw (
        values-del k security_token (codes "X-Amz-Content-Sha256"),
        date_keys.2,
        values-set_self i (codes "X-Amz-Content-Sha256") (codes "UNSIGNED-PAYLOAD"),
      ),
    )

-- What the gateway reads of a request with a synthetic header.
pub record IsSynthetic (username region : Text) (now : Time) (sent : Request) : Type 0 where
  pub parsed :
      parse_authorization (Http.get sent.header (codes "Authorization"))
      ≡ ok (record {
        access_key_id = username;
        date = take 8 (Http.get sent.header (codes "X-Amz-Date"));
        region = region;
        service = codes "s3";
        signed_headers = codes "host" ∷ codes "x-amz-date" ∷ [];
        signature = codes "0000000000000000000000000000000000000000000000000000000000000000";
      })
  pub dated : Http.get sent.header (codes "X-Amz-Date") ≡ format_amz now
  pub declared : Http.get sent.header (codes "X-Amz-Content-Sha256") ≡ codes "UNSIGNED-PAYLOAD"
  pub no_token : Http.values sent.header (codes "X-Amz-Security-Token") ≡ []

-- The gateway reads of the synthetic header the user as the access key, today as the date, the region, the
-- service s3, host and x-amz-date as the signed headers, and a signature of zeros. The X-Amz-Date header
-- has the same date, the payload is declared as unsigned, and there is no session token. This holds for a
-- user name and a region without delimiters.
pub apply_synthetic-parse :
    (r : Request) (username region : Text) (now : Time)
    → IsCarried username
    → IsField region
    → IsSynthetic username region now (apply_synthetic r username region now)
apply_synthetic-parse r username region now u reg =
    let sent = apply_synthetic-IsAttributed r username region now in
    let (dated, declared) = apply_synthetic-headers r username region now in
    record {
      parsed =
          ap parse_authorization sent.header
          ∙ parse_authorization-authorization_header _
              (synthetic-IsWritable username region now u reg)
          ∙ ap (λ date. ok (record (synthetic username region now) { date = date }))
              (sym (ap (take 8) dated ∙ take-format_amz now));
      dated = dated;
      declared = declared;
      no_token = sent.no_token;
    }
