-- ===== src/P11/Object/Matches.antt =====
-- When a template matches an object.
use aws_nitro_enclaves_acm.Prelude.{
  ◌==◌, Bool, true, false, ◌||◌, ◌≡◌, ◌↔◌, refl, sym, ap, Option, none, some, List, [], ◌∷◌, All,
  Bytes, bytes_eq_iff, arith,
}
use aws_nitro_enclaves_acm.P11.Ck.Attrs
use aws_nitro_enclaves_acm.P11.Attr.{Attr, as_bytes}
use aws_nitro_enclaves_acm.P11.RawAttr.{CkRawAttr, val_bytes}
use aws_nitro_enclaves_acm.P11.Object.{Object, attr, is_mechanism}
use aws_nitro_enclaves_acm.P11.Object.Template.{
  same_bytes, attr_matches, match_from, match_attr_template,
}

-- The object has the attribute, and the template gives its bytes.
abbrev pub Matches : Object → CkRawAttr → Type 0
Matches o raw = (a : Attr) × (attr o raw.type ≡ some a) × (val_bytes raw ≡ some (as_bytes a))

abbrev pub asks_class : List CkRawAttr → Bool
asks_class [] = false
asks_class (raw ∷ tpl) = raw.type == Attrs.cka_class || asks_class tpl

same_bytes_iff :
    (x : Option Attr) (y : Option Bytes)
    → (same_bytes x y ≡ true) ↔ ((a : Attr) × (x ≡ some a) × (y ≡ some (as_bytes a)))
same_bytes_iff none y = (λ h. ground arith, λ h. ground arith)
same_bytes_iff (some a) none = (λ h. ground arith, λ h. ground arith)
same_bytes_iff (some a) (some bs) = (
  λ h. (a, refl, ap some (sym ((bytes_eq_iff _ _).0 h))),
  λ h. (bytes_eq_iff _ _).1 (ground arith),
)

attr_matches_iff : (o : Object) (raw : CkRawAttr) → (attr_matches o raw ≡ true) ↔ Matches o raw
attr_matches_iff o raw = same_bytes_iff (attr o raw.type) (val_bytes raw)

match_from_iff :
    (o : Object) (c : Bool) (tpl : List CkRawAttr)
    → (match_from o c tpl ≡ true)
      ↔ (All (Matches o) tpl × (is_mechanism o ≡ true → (c || asks_class tpl) ≡ true))
unfolding match_from
match_from_iff o c [] = (λ h. (tt, λ m. ground arith), λ h. ground arith)
match_from_iff o c (raw ∷ tpl) = (
  λ h.
      let m : attr_matches o raw ≡ true = ground arith in
      let ih = (match_from_iff o (c || raw.type == Attrs.cka_class) tpl).0 (ground arith) in
      (((attr_matches_iff o raw).0 m, ih.0), λ mech. ground (arith, ih.1 mech)),
  λ h.
      let m = (attr_matches_iff o raw).1 h.0.0 in
      let ih =
        (match_from_iff o (c || raw.type == Attrs.cka_class) tpl).1
          (h.0.1, λ mech. ground (arith, h.1 mech)) in
      ground arith,
)

-- A template matches an object exactly when the object has each of its attributes with the bytes
-- that the template gives, and, for a mechanism object, the template also asks for a class.
pub match_attr_template_iff :
    (o : Object) (tpl : List CkRawAttr)
    → (match_attr_template o tpl ≡ true)
      ↔ (All (Matches o) tpl × (is_mechanism o ≡ true → asks_class tpl ≡ true))
unfolding match_attr_template
match_attr_template_iff o tpl = match_from_iff o false tpl
