-- ===== src/SigV4/Canonical/Encoding.antt =====
-- `uriEncode` is undone by percent decoding.
use ozone_oidc_proxy.Base.{
  ℕ, ◌+◌, ◌*◌, ◌/◌, ◌%◌, ◌<◌, ◌≡◌, refl, inl, inr, true, false, ◌||◌, [], ◌∷◌, arith, ◌==◌, All,
  some, Bool-cases,
}
use ozone_oidc_proxy.Text.{Text}
use ozone_oidc_proxy.Go.Hex.{hex_digit, is_hex, unhex}
use ozone_oidc_proxy.Go.Percent.{path_unescape, path_unescape-plain, path_unescape-escape}
use ozone_oidc_proxy.SigV4.Canonical.{unreserved, uri_encode}

-- Every number of the text is a byte.
abbrev pub IsBytes : Text → Type 0
IsBytes = All (λ c. c < 256)

hex_digit-is_hex : (n : ℕ) → n < 16 → is_hex (hex_digit b'A' n) ≡ true
hex_digit-is_hex n h = ground arith

unhex-hex_digit : (n : ℕ) → n < 16 → unhex (hex_digit b'A' n) ≡ n
unhex-hex_digit n h = ground arith

byte_of_digits :
    (c : ℕ) → c < 256 → 16 * unhex (hex_digit b'A' (c / 16)) + unhex (hex_digit b'A' (c % 16)) ≡ c
byte_of_digits c h =
    omega (arith, unhex-hex_digit (c / 16) (omega arith), unhex-hex_digit (c % 16) (omega arith))

unreserved-not_percent : (c : ℕ) → unreserved c ≡ true → (c == b'%') ≡ false
unreserved-not_percent c h = ground arith

uri_encode-unreserved :
    (c : ℕ) (s : Text) → unreserved c ≡ true → uri_encode true (c ∷ s) ≡ c ∷ uri_encode true s
unfolding uri_encode
uri_encode-unreserved c s h = rw h

uri_encode-escaped :
    (c : ℕ) (s : Text)
    → unreserved c ≡ false
    → uri_encode true (c ∷ s)
      ≡ b'%' ∷ hex_digit b'A' (c / 16) ∷ hex_digit b'A' (c % 16) ∷ uri_encode true s
unfolding uri_encode
uri_encode-escaped c s h = ground arith

-- Decoding the URI encoding of a text of bytes gives the text back.
path_unescape-uri_encode : (s : Text) → IsBytes s → path_unescape (uri_encode true s) ≡ some s
path_unescape-uri_encode [] h = unfold path_unescape uri_encode in refl
path_unescape-uri_encode (c ∷ s) (p, h) = elim (Bool-cases (unreserved c)) [
  | inl plain ↦ rw (
    uri_encode-unreserved c s plain,
    path_unescape-plain c (uri_encode true s) (unreserved-not_percent c plain),
    path_unescape-uri_encode s h,
  )
  | inr escaped ↦ rw (
    uri_encode-escaped c s escaped,
    path_unescape-escape (hex_digit b'A' (c / 16)) (hex_digit b'A' (c % 16)) (uri_encode true s)
        (hex_digit-is_hex (c / 16) (omega arith)) (hex_digit-is_hex (c % 16) (omega arith)),
    path_unescape-uri_encode s h,
    byte_of_digits c p,
  )
]

abbrev pub IsEncoded : ℕ → Type 0
IsEncoded c = (unreserved c || c == b'%') ≡ true

digit-IsEncoded : (n : ℕ) → n < 16 → IsEncoded (hex_digit b'A' n)
digit-IsEncoded n h = ground arith

-- The URI encoding of a text of bytes has only unreserved characters, percent signs and digits of
-- escapes.
pub uri_encode-IsEncoded : (s : Text) → IsBytes s → All IsEncoded (uri_encode true s)
uri_encode-IsEncoded [] h = unfold uri_encode in tt
uri_encode-IsEncoded (c ∷ s) (p, h) = elim (Bool-cases (unreserved c)) [
  | inl plain ↦ rw (uri_encode-unreserved c s plain) (ground arith, uri_encode-IsEncoded s h)
  | inr escaped ↦ rw (uri_encode-escaped c s escaped) (
    refl,
    (
      digit-IsEncoded (c / 16) (omega arith),
      (digit-IsEncoded (c % 16) (omega arith), uri_encode-IsEncoded s h),
    ),
  )
]
