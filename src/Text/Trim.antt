-- ===== src/Text/Trim.antt =====
-- Trimming a text with no white space at its ends changes nothing.
use ozone_oidc_proxy.Base.{◌≡◌, refl, [], ◌∷◌, arith}
use ozone_oidc_proxy.Text.{Text, is_space, trim_left, trim_right, trim_space, to_lower}
use ozone_oidc_proxy.Text.Parts.{Lacks}

trim_right-Lacks : (s : Text) → Lacks is_space s → trim_right s ≡ s
unfolding trim_right
trim_right-Lacks [] h = refl
trim_right-Lacks (c ∷ s) (p, h) = ground (arith, trim_right-Lacks s h)

trim_left-Lacks : (s : Text) → Lacks is_space s → trim_left s ≡ s
unfolding trim_left
trim_left-Lacks [] h = refl
trim_left-Lacks (c ∷ s) (p, h) = rw p

pub trim_space-Lacks : (s : Text) → Lacks is_space s → trim_space s ≡ s
unfolding trim_space
trim_space-Lacks s h = rw (trim_left-Lacks s h, trim_right-Lacks s h)

pub trim_space-blank : (s : Text) → Lacks is_space s → trim_space (32 ∷ s) ≡ s
unfolding trim_space
trim_space-blank s h = rw (trim_left-Lacks s h, trim_right-Lacks s h)

pub to_lower_idem : (s : Text) → to_lower (to_lower s) ≡ to_lower s
unfolding to_lower
to_lower_idem [] = refl
to_lower_idem (c ∷ s) = ground (arith, to_lower_idem s)
