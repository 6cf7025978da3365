-- ===== src/SigV4/Verify/Sound.antt =====
-- What `Verify` establishes.
use ozone_oidc_proxy.Base.{
  ◌≡◌, refl, sym, ◌↔◌, false, not, [], ◌∷◌, arith, is_nil, take, some, ok, guard, guard-eq-ok,
  >>=-eq-ok, ◌≤ℤ◌, neg, ℤ, of_option,
}
use ozone_oidc_proxy.Text.{Text, codes, text_eq}
use ozone_oidc_proxy.Text.Equality.{text_eq_sound, text_eq_of_eq}
use ozone_oidc_proxy.Go.Clock.{Time, sub, parse_amz}
use ozone_oidc_proxy.Go.Http
use ozone_oidc_proxy.Platform.{Platform}
use ozone_oidc_proxy.SigV4.Canonical.{canonical_request}
use ozone_oidc_proxy.SigV4.Verify.{Input, expected_signature, is_skewed, verify}

abbrev pub amz_date : Input → Text
amz_date i = Http.get i.request.header (codes "X-Amz-Date")

-- What a verified request is known to satisfy.
pub record IsVerified (p : Platform) (i : Input) : Type 0 where
  pub service : i.auth.service ≡ i.service
  pub region : i.auth.region ≡ i.region
  pub time : Time
  pub dated : parse_amz (amz_date i) ≡ some time
  pub not_late : sub i.now time ≤ℤ i.clock_skew
  pub not_early : neg i.clock_skew ≤ℤ sub i.now time
  pub scope_date : take 8 (amz_date i) ≡ i.auth.date
  pub canonical : Text
  pub rebuilt : canonical_request p i.request i.auth.signed_headers ≡ ok canonical
  pub signature :
      i.auth.signature
      ≡ expected_signature p i.secret
          (amz_date i)
          i.auth.date
          i.auth.region
          i.auth.service
          canonical

is_skewed_iff :
    (allowed d : ℤ) → (is_skewed allowed d ≡ false) ↔ ((d ≤ℤ allowed) × (neg allowed ≤ℤ d))
is_skewed_iff allowed d = ground arith

dated_ne_nil : (s : Text) {t : Time} → parse_amz s ≡ some t → is_nil s ≡ false
unfolding parse_amz
dated_ne_nil [] h = cc
dated_ne_nil (c ∷ s) h = refl

module _ (p : Platform) (i : Input) where
  verify-IsVerified : verify p i ≡ ok tt → IsVerified p i
  unfolding verify
  verify-IsVerified e =
      let (_, service, e) = >>=-eq-ok (guard (text_eq i.auth.service i.service) _) _ e in
      let (_, region, e) = >>=-eq-ok (guard (text_eq i.auth.region i.region) _) _ e in
      let (_, _, e) = >>=-eq-ok (guard (not (is_nil (amz_date i))) _) _ e in
      let (t, dated, e) = >>=-eq-ok (of_option _ (parse_amz (amz_date i))) _ e in
      let (_, near, e) = >>=-eq-ok (guard (not (is_skewed i.clock_skew (sub i.now t))) _) _ e in
      let (_, day, e) = >>=-eq-ok (guard (text_eq (take 8 (amz_date i)) i.auth.date) _) _ e in
      let (c, rebuilt, e) = >>=-eq-ok (canonical_request p i.request i.auth.signed_headers) _ e in
      let close = (is_skewed_iff i.clock_skew (sub i.now t)).0 (ground arith) in
      record {
        service = text_eq_sound _ _ (guard-eq-ok _ _ service);
        region = text_eq_sound _ _ (guard-eq-ok _ _ region);
        time = t;
        dated = ground arith;
        not_late = close.0;
        not_early = close.1;
        scope_date = text_eq_sound _ _ (guard-eq-ok _ _ day);
        canonical = c;
        rebuilt = rebuilt;
        signature = sym (text_eq_sound _ _ (guard-eq-ok _ _ e));
      }

  IsVerified-verify : IsVerified p i → verify p i ≡ ok tt
  unfolding verify
  IsVerified-verify v = rw (
    text_eq_of_eq i.auth.service i.service v.service,
    text_eq_of_eq i.auth.region i.region v.region,
    v.dated,
    dated_ne_nil (amz_date i) v.dated,
    (is_skewed_iff i.clock_skew (sub i.now v.time)).1 (v.not_late, v.not_early),
    text_eq_of_eq (take 8 (amz_date i)) i.auth.date v.scope_date,
    v.rebuilt,
    text_eq_of_eq _ i.auth.signature (sym v.signature),
  )

  -- `Verify` accepts exactly the requests with the expected scope, a date within the clock skew
  -- whose day is that of the scope, and the signature that the server computes for the request.
  pub verify_iff : (verify p i ≡ ok tt) ↔ IsVerified p i
  verify_iff = (verify-IsVerified, IsVerified-verify)
