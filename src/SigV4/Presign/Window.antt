-- ===== src/SigV4/Presign/Window.antt =====
-- What a parsed and a verified presigned URL are known to satisfy: the form of the parameters, and
-- the window of time in which the URL is accepted.
use ozone_oidc_proxy.Base.{
  ℕ, ◌*◌, ◌≤◌, ◌≡◌, refl, sym, ap, ◌∙◌, ◌↔◌, true, not, arith, ◌==◌, length, take, some, ok, guard,
  guard-eq-ok, >>=-eq-ok, of_option, ℤ, pos, negsuc, lt_ℤ, ltb, ◌≤ℤ◌, ok_injective, subst,
}
use ozone_oidc_proxy.Text.{Text, codes, text_eq}
use ozone_oidc_proxy.Text.Equality.{text_eq_sound, text_eq_of_eq}
use ozone_oidc_proxy.Go.Clock.{Time, sub, add, second, seconds, parse_amz}
use ozone_oidc_proxy.Go.Decimal.{atoi}
use ozone_oidc_proxy.Go.Http.{Request}
use ozone_oidc_proxy.Go.Query
use ozone_oidc_proxy.Go.Query.{query}
use ozone_oidc_proxy.Platform.{Platform}
use ozone_oidc_proxy.SigV4.{algorithm}
use ozone_oidc_proxy.SigV4.Auth.{
  no_authorization, set_credential, set_signed_headers, set_signature,
}
use ozone_oidc_proxy.SigV4.Auth.WellFormed.{IsWellFormed}
use ozone_oidc_proxy.SigV4.Auth.Setters.{setters-IsWellFormed}
use ozone_oidc_proxy.SigV4.Canonical.{build_canonical}
use ozone_oidc_proxy.SigV4.Verify.{expected_signature}
use ozone_oidc_proxy.SigV4.Presign.{
  max_presign_expires, unsigned_payload, x_amz_signature, Presigned, parse_presigned, PresignInput,
  verify_presigned,
}

-- The form of a parsed presigned URL.
pub record IsPresigned (a : Presigned) : Type 0 where
  pub authorization : IsWellFormed a.authorization
  pub date_length : length a.amz_date ≡ 16
  pub seconds : ℕ
  pub positive : 1 ≤ seconds
  pub bounded : seconds ≤ max_presign_expires
  pub expires : a.expires ≡ pos (seconds * second)

-- What verification of a presigned URL establishes.
pub record IsVerifiedAt (p : Platform) (i : PresignInput) : Type 0 where
  pub service : i.auth.authorization.service ≡ i.service
  pub region : i.auth.authorization.region ≡ i.region
  pub time : Time
  pub dated : parse_amz i.auth.amz_date ≡ some time
  pub scope_date : take 8 i.auth.amz_date ≡ i.auth.authorization.date
  pub not_future : sub time i.now ≤ℤ i.clock_skew
  pub not_expired : i.now ≤ add time i.auth.expires
  pub canonical : Text
  pub rebuilt :
      build_canonical p i.request i.auth.authorization.signed_headers x_amz_signature
        unsigned_payload
      ≡ ok canonical
  pub signature :
      i.auth.authorization.signature
      ≡ expected_signature p i.secret i.auth.amz_date i.auth.authorization.date
          i.auth.authorization.region i.auth.authorization.service canonical

not_lt_iff : (a b : ℤ) → (not (lt_ℤ a b) ≡ true) ↔ (b ≤ℤ a)
not_lt_iff a b = ground arith

not-ltb_iff : (a b : ℕ) → (not (ltb a b) ≡ true) ↔ (b ≤ a)
not-ltb_iff a b = ground arith

module _ (p : Platform) (i : PresignInput) where
  verify_presigned-IsVerifiedAt : verify_presigned p i ≡ ok tt → IsVerifiedAt p i
  unfolding verify_presigned
  verify_presigned-IsVerifiedAt e =
      let a = i.auth.authorization in
      let date = i.auth.amz_date in
      let (_, service, e) = >>=-eq-ok (guard (text_eq a.service i.service) _) _ e in
      let (_, region, e) = >>=-eq-ok (guard (text_eq a.region i.region) _) _ e in
      let (t, dated, e) = >>=-eq-ok (of_option _ (parse_amz date)) _ e in
      let (_, day, e) = >>=-eq-ok (guard (text_eq (take 8 date) a.date) _) _ e in
      let (_, early, e) = >>=-eq-ok (guard (not (lt_ℤ i.clock_skew (sub t i.now))) _) _ e in
      let (_, late, e) = >>=-eq-ok (guard (not (ltb (add t i.auth.expires) i.now)) _) _ e in
      let (c, rebuilt, e) =
        >>=-eq-ok (build_canonical p i.request a.signed_headers x_amz_signature unsigned_payload) _
          e in
      record {
        service = text_eq_sound _ _ (guard-eq-ok _ _ service);
        region = text_eq_sound _ _ (guard-eq-ok _ _ region);
        time = t;
        dated = ground arith;
        scope_date = text_eq_sound _ _ (guard-eq-ok _ _ day);
        not_future = (not_lt_iff i.clock_skew (sub t i.now)).0 (guard-eq-ok _ _ early);
        not_expired = (not-ltb_iff (add t i.auth.expires) i.now).0 (guard-eq-ok _ _ late);
        canonical = c;
        rebuilt = rebuilt;
        signature = sym (text_eq_sound _ _ (guard-eq-ok _ _ e));
      }

  IsVerifiedAt-verify_presigned : IsVerifiedAt p i → verify_presigned p i ≡ ok tt
  unfolding verify_presigned
  IsVerifiedAt-verify_presigned v =
      let a = i.auth.authorization in
      rw (
        text_eq_of_eq a.service i.service v.service,
        text_eq_of_eq a.region i.region v.region,
        v.dated,
        text_eq_of_eq (take 8 i.auth.amz_date) a.date v.scope_date,
        (not_lt_iff i.clock_skew (sub v.time i.now)).1 v.not_future,
        (not-ltb_iff (add v.time i.auth.expires) i.now).1 v.not_expired,
        v.rebuilt,
        text_eq_of_eq _ a.signature (sym v.signature),
      )

  -- `VerifyPresigned` accepts exactly the URLs with the expected scope, dated at most the clock
  -- skew ahead, not past their expiry, with the signature that the server computes over the
  -- canonical request without the signature parameter and with an unsigned payload.
  pub verify_presigned_iff : (verify_presigned p i ≡ ok tt) ↔ IsVerifiedAt p i
  verify_presigned_iff = (verify_presigned-IsVerifiedAt, IsVerifiedAt-verify_presigned)

seconds_small : (n : ℕ) → n ≤ max_presign_expires → seconds (pos n) ≡ pos (n * second)
unfolding seconds
seconds_small n h = ground arith

expiry_range :
    (n : ℤ)
    → lt_ℤ (pos 0) n ≡ true
    → not (lt_ℤ (pos max_presign_expires) n) ≡ true
    → (k : ℕ) × (n ≡ pos k) × (1 ≤ k) × (k ≤ max_presign_expires)
expiry_range (pos k) h e = (k, refl, ground arith, ground arith)
expiry_range (negsuc k) h e = ground arith

-- An accepted query has well-formed authorization fields, a date of 16 characters, and a lifetime
-- between one second and one week, which is therefore exact in nanoseconds.
pub parse_presigned-IsPresigned :
    (r : Request) {a : Presigned} → parse_presigned r ≡ ok a → IsPresigned a
unfolding parse_presigned
parse_presigned-IsPresigned r {a} e =
    let q = query r.raw_query in
    let date = Query.get q (codes "X-Amz-Date") in
    let (_, _, e) =
      >>=-eq-ok (guard (text_eq (Query.get q (codes "X-Amz-Algorithm")) algorithm) _) _ e in
    let (b, first, e) =
      >>=-eq-ok (set_credential no_authorization (Query.get q (codes "X-Amz-Credential"))) _ e in
    let (c, next, e) =
      >>=-eq-ok (set_signed_headers b (Query.get q (codes "X-Amz-SignedHeaders"))) _ e in
    let (d, last, e) = >>=-eq-ok (set_signature c (Query.get q x_amz_signature)) _ e in
    let (_, long, e) = >>=-eq-ok (guard (length date == 16) _) _ e in
    let (n, _, e) = >>=-eq-ok (of_option _ (atoi (Query.get q (codes "X-Amz-Expires")))) _ e in
    let (_, low, e) = >>=-eq-ok (guard (lt_ℤ (pos 0) n) _) _ e in
    let (_, high, e) = >>=-eq-ok (guard (not (lt_ℤ (pos max_presign_expires) n)) _) _ e in
    let (k, same, one, week) = expiry_range n (guard-eq-ok _ _ low) (guard-eq-ok _ _ high) in
    subst IsPresigned (ok_injective _ a e) (record {
      authorization = setters-IsWellFormed _ _ _ first next last;
      date_length = ground (arith, guard-eq-ok _ _ long);
      seconds = k;
      positive = one;
      bounded = week;
      expires = ap seconds same ∙ seconds_small k week;
    })
