-- ===== src/Go/Percent.antt =====
-- url.PathUnescape and url.QueryUnescape.
use ozone_oidc_proxy.Base.{
  ℕ, ◌+◌, ◌*◌, ◌≡◌, Bool, true, false, ◌&&◌, [], ◌∷◌, Option, none, some, ◌==◌, if◌then◌else◌,
}
use ozone_oidc_proxy.Text.{Text}
use ozone_oidc_proxy.Go.Hex.{is_hex, unhex}

abbrev push : ℕ → Option Text → Option Text
push c none = none
push c (some s) = some (c ∷ s)

-- A plus sign is a space in a query.
abbrev plain : Bool → ℕ → ℕ
plain plus c = if plus && c == b'+' then b' ' else c

-- `none` where a percent sign is not followed by two hexadecimal digits. `plus` says whether a plus
-- sign stands for a space.
unescape : Bool → Text → Option Text
unescape plus [] = some []
unescape plus (c ∷ []) = if c == b'%' then none else some (plain plus c ∷ [])
unescape plus (c ∷ a ∷ []) =
    let rest = push (plain plus c) (unescape plus (a ∷ [])) in if c == b'%' then none else rest
unescape plus (c ∷ a ∷ b ∷ s) =
    let rest = push (plain plus c) (unescape plus (a ∷ b ∷ s)) in
    let decoded = push (16 * unhex a + unhex b) (unescape plus s) in
    if c == b'%' then if is_hex a && is_hex b then decoded else none else rest

-- `url.PathUnescape`
unfoldable pub path_unescape : Text → Option Text
unfolding unescape
path_unescape = unescape false

-- `url.QueryUnescape`
unfoldable pub query_unescape : Text → Option Text
unfolding unescape
query_unescape = unescape true

pub path_unescape-plain :
    (c : ℕ) (s : Text) → (c == b'%') ≡ false → path_unescape (c ∷ s) ≡ push c (path_unescape s)
unfolding path_unescape
path_unescape-plain c [] h = rw h
path_unescape-plain c (a ∷ []) h = rw h
path_unescape-plain c (a ∷ b ∷ s) h = rw h

pub path_unescape-escape :
    (a b : ℕ) (s : Text)
    → is_hex a ≡ true
    → is_hex b ≡ true
    → path_unescape (b'%' ∷ a ∷ b ∷ s) ≡ push (16 * unhex a + unhex b) (path_unescape s)
unfolding path_unescape
path_unescape-escape a b s p q = rw (p, q)
