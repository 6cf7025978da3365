-- ===== src/Go/Http/Laws.antt =====
-- Reading a header after `Set` and `Del`.
use ozone_oidc_proxy.Base.{◌≡◌, [], ◌∷◌, arith, if◌then◌else◌}
use ozone_oidc_proxy.Text.{Text, text_eq}
use ozone_oidc_proxy.Text.Equality.{text_eq_iff, text_eq_refl}
use ozone_oidc_proxy.Go.Http.{Header, canonical_key, lookup, remove, values, del, set}

lookup-remove :
    (k j : Text) (h : Header) → lookup j (remove k h) ≡ (if text_eq k j then [] else lookup j h)
unfolding lookup remove
lookup-remove k j [] = ground arith
lookup-remove k j ((i, vs) ∷ h) =
    ground (arith, lookup-remove k j h, text_eq_iff i k, text_eq_iff i j, text_eq_iff k j)

pub values-del :
    (h : Header) (k j : Text)
    → values (del h k) j ≡ (if text_eq (canonical_key k) (canonical_key j) then [] else values h j)
unfolding values del
values-del h k j = lookup-remove (canonical_key k) (canonical_key j) h

pub values-set :
    (h : Header) (k v j : Text)
    → values (set h k v) j
      ≡ (if text_eq (canonical_key k) (canonical_key j) then v ∷ [] else values h j)
unfolding values set
values-set h k v j = ground (arith, lookup-remove (canonical_key k) (canonical_key j) h)

pub values-set_self : (h : Header) (k v : Text) → values (set h k v) k ≡ v ∷ []
values-set_self h k v = rw (values-set, text_eq_refl)

pub values-del_self : (h : Header) (k : Text) → values (del h k) k ≡ []
values-del_self h k = rw (values-del, text_eq_refl)
