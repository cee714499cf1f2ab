-- ===== src/P11/Object/Template.antt =====
-- vtok_p11/src/backend/db/object.rs: matching an object with a template, and filling one.
use aws_nitro_enclaves_acm.Prelude.{
  ℕ, ◌==◌, Bool, true, false, ◌||◌, Option, none, some, List, [], ◌∷◌, Bytes, bytes_eq,
  if◌then◌else◌, Result, ok, err,
}
use aws_nitro_enclaves_acm.P11.Ck.Attrs
use aws_nitro_enclaves_acm.P11.Ck.Rv
use aws_nitro_enclaves_acm.P11.Ck.Objects
use aws_nitro_enclaves_acm.P11.Attr.{Attr, sensitive, as_bytes, attr_len}
use aws_nitro_enclaves_acm.P11.RawAttr.{
  CkRawAttr, RawError, buf_too_small, null_ptr_deref, val_bytes, set_len, set_val_bytes,
}
use aws_nitro_enclaves_acm.P11.Object.{Object, attr, is_mechanism}
use aws_nitro_enclaves_acm.P11.Error.{Error, ck_error}

-- Whether the attribute is there, the template has a value for it, and the two are the same bytes.
abbrev pub same_bytes : Option Attr → Option Bytes → Bool
same_bytes none _ = false
same_bytes (some a) none = false
same_bytes (some a) (some raw_bytes) = bytes_eq (as_bytes a) raw_bytes

abbrev pub attr_matches : Object → CkRawAttr → Bool
attr_matches o raw = same_bytes (attr o raw.type) (val_bytes raw)

-- The loop of `match_attr_template`.
unfoldable pub match_from : Object → Bool → List CkRawAttr → Bool
unfolding is_mechanism
match_from o class_matched [] = if is_mechanism o then class_matched else true
match_from o class_matched (raw ∷ tpl) =
    let rest = match_from o (class_matched || raw.type == Attrs.cka_class) tpl in
    if attr_matches o raw then rest else false

unfoldable pub match_attr_template : Object → List CkRawAttr → Bool
unfolding match_from
match_attr_template o tpl = match_from o false tpl

-- What one attribute of a template becomes, and the code it sets, if it sets one.
abbrev pub written : Attr → CkRawAttr × Option RawError → CkRawAttr × Option ℕ
written a (raw, some buf_too_small) =
    (set_len Objects.ck_unavailable_information raw, some Rv.ckr_buffer_too_small)
written a (raw, some null_ptr_deref) = (set_len (attr_len a) raw, none)
written a (raw, none) = (set_len (attr_len a) raw, none)

abbrev pub fill_found : Option Attr → CkRawAttr → CkRawAttr × Option ℕ
fill_found none raw =
    (set_len Objects.ck_unavailable_information raw, some Rv.ckr_attribute_type_invalid)
fill_found (some sensitive) raw =
    (set_len Objects.ck_unavailable_information raw, some Rv.ckr_attribute_sensitive)
fill_found (some a) raw = written a (set_val_bytes (as_bytes a) raw)

unfoldable pub fill_attr : Object → CkRawAttr → CkRawAttr × Option ℕ
unfolding as_bytes attr_len set_val_bytes
fill_attr o raw = fill_found (attr o raw.type) raw

abbrev pub last_code : Option ℕ → ℕ → ℕ
last_code none rcode = rcode
last_code (some code) rcode = code

-- The loop of `fill_attr_template`: the template that it leaves, and the last code that it set.
unfoldable pub fill_from : Object → ℕ → List CkRawAttr → List CkRawAttr × ℕ
unfolding fill_attr
fill_from o rcode [] = ([], rcode)
fill_from o rcode (raw ∷ tpl) =
    let (raw', code) = fill_attr o raw in
    let (tpl', rcode') = fill_from o (last_code code rcode) tpl in (raw' ∷ tpl', rcode')

unfoldable pub fill_attr_template :
    Object → List CkRawAttr → List CkRawAttr × Result Error (Unit {0})
unfolding fill_from
fill_attr_template o tpl =
    let (tpl', rcode) = fill_from o Rv.ckr_ok tpl in
    (tpl', if rcode == Rv.ckr_ok then ok tt else err (ck_error rcode))
