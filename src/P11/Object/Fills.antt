-- ===== src/P11/Object/Fills.antt =====
-- When a template is filled, and with what.
use aws_nitro_enclaves_acm.Prelude.{
  ℕ, ◌≤◌, ◌==◌, true, false, ◌≡◌, ◌≢◌, ◌↔◌, ◌⊎◌, refl, sym, subst, ap, ◌∙◌, Option, none, some,
  List, [], ◌∷◌, ◌++◌, Option-cases, ==_iff, length, take, drop, All, Bytes, ok, arith, Bool-cases,
  inl, inr, ltb,
}
use aws_nitro_enclaves_acm.P11.Ck.Rv
use aws_nitro_enclaves_acm.P11.Attr.{
  Attr, bytes, ck_bbool, ck_byte, ck_key_type, ck_cert_type, ck_cert_category, ck_mechanism_type,
  ck_object_class, ck_ulong, sensitive, as_bytes, attr_len,
}
use aws_nitro_enclaves_acm.P11.RawAttr.{CkRawAttr, val_bytes, overwrite, set_val_bytes}
use aws_nitro_enclaves_acm.P11.Object.{Object, attr, is_mechanism}
use aws_nitro_enclaves_acm.P11.Object.Template.{
  last_code, written, fill_found, fill_attr, fill_from, fill_attr_template, match_attr_template,
}
use aws_nitro_enclaves_acm.P11.Object.Matches.{Matches, match_attr_template_iff}

-- A length alone is asked for, or the buffer is large enough.
abbrev pub Fits : Attr → CkRawAttr → Type 0
Fits a raw = (raw.value ≡ none) ⊎ (attr_len a ≤ raw.value_len)

-- The object has the attribute, which is not sensitive and fits the template's buffer.
abbrev pub Fillable : Object → CkRawAttr → Type 0
Fillable o raw = (a : Attr) × (attr o raw.type ≡ some a) × (a ≢ sensitive) × Fits a raw

attr_len-as_bytes : (a : Attr) → attr_len a ≡ length (as_bytes a)
unfolding attr_len as_bytes
attr_len-as_bytes (bytes v) = refl
attr_len-as_bytes (ck_bbool v) = refl
attr_len-as_bytes (ck_byte v) = refl
attr_len-as_bytes (ck_key_type v) = refl
attr_len-as_bytes (ck_cert_type v) = refl
attr_len-as_bytes (ck_cert_category v) = refl
attr_len-as_bytes (ck_mechanism_type v) = refl
attr_len-as_bytes (ck_object_class v) = refl
attr_len-as_bytes (ck_ulong v) = refl
attr_len-as_bytes sensitive = refl

sensitive-cases :
    (a : Attr) (raw : CkRawAttr)
    → (a ≡ sensitive)
      ⊎ ((a ≢ sensitive) × (fill_found (some a) raw ≡ written a (set_val_bytes (as_bytes a) raw)))
sensitive-cases (bytes v) raw = inr (λ e. ground arith, refl)
sensitive-cases (ck_bbool v) raw = inr (λ e. ground arith, refl)
sensitive-cases (ck_byte v) raw = inr (λ e. ground arith, refl)
sensitive-cases (ck_key_type v) raw = inr (λ e. ground arith, refl)
sensitive-cases (ck_cert_type v) raw = inr (λ e. ground arith, refl)
sensitive-cases (ck_cert_category v) raw = inr (λ e. ground arith, refl)
sensitive-cases (ck_mechanism_type v) raw = inr (λ e. ground arith, refl)
sensitive-cases (ck_object_class v) raw = inr (λ e. ground arith, refl)
sensitive-cases (ck_ulong v) raw = inr (λ e. ground arith, refl)
sensitive-cases sensitive raw = inl refl

-- What a write leaves: it fits, no code is set and the attribute is as below; or a code is set.
abbrev written_value : Bytes → Option Bytes → Option Bytes
written_value bs none = none
written_value bs (some buf) = some (overwrite bs buf)

abbrev pub filled_with : Attr → CkRawAttr → CkRawAttr
filled_with a raw = record {
  type = raw.type;
  value = written_value (as_bytes a) raw.value;
  value_len = attr_len a;
}

abbrev Wrote : Attr → CkRawAttr → CkRawAttr × Option ℕ → Type 0
Wrote a raw r =
    (Fits a raw × (r ≡ (filled_with a raw, none)))
    ⊎ (¬ (Fits a raw) × (code : ℕ) × (code ≢ Rv.ckr_ok) × (r.1 ≡ some code))

written-cases :
    (a : Attr) (t : ℕ) (v : Option Bytes) (n : ℕ)
    → Wrote a
        (record { type = t; value = v; value_len = n })
        (written a (set_val_bytes (as_bytes a) (record { type = t; value = v; value_len = n })))
unfolding set_val_bytes
written-cases a t none n = inl (inl refl, refl)
written-cases a t (some buf) n = elim (Bool-cases (ltb n (length (as_bytes a)))) [
  | inl small ↦
      let over : ¬ (attr_len a ≤ n) = ground (arith, attr_len-as_bytes a) in
      inr (λ f. ground arith, Rv.ckr_buffer_too_small, λ e. omega arith, ground arith)
  | inr fits ↦
      let under : attr_len a ≤ n = ground (arith, attr_len-as_bytes a) in
      inl (inr under, ground arith)
]

-- Either the attribute is filled with the object's, or a code is set.
abbrev FillOutcome : Object → CkRawAttr → Type 0
FillOutcome o raw =
    ((a : Attr) × (attr o raw.type ≡ some a)
      × (a ≢ sensitive)
      × Fits a raw
      × (fill_attr o raw ≡ (filled_with a raw, none)))
    ⊎ (¬ (Fillable o raw) × (code : ℕ) × (code ≢ Rv.ckr_ok) × ((fill_attr o raw).1 ≡ some code))

fill_attr-cases : (o : Object) (raw : CkRawAttr) → FillOutcome o raw
unfolding fill_attr
fill_attr-cases o raw = elim (Option-cases (attr o raw.type)) [
  | inl missing ↦
      inr (λ f. ground arith, Rv.ckr_attribute_type_invalid, λ e. omega arith, ground arith)
  | inr (a, found) ↦ elim (sensitive-cases a raw) [
    | inl secret ↦
        inr (λ f. ground arith, Rv.ckr_attribute_sensitive, λ e. omega arith, ground arith)
    | inr (open_, same) ↦ elim (written-cases a raw.type raw.value raw.value_len) [
      | inl (fits, w) ↦ inl (a, found, open_, fits, ground arith)
      | inr (over, code, ne, w) ↦ inr (λ f. ground arith, code, ne, ground arith)
    ]
  ]
]

fill_from_iff :
    (o : Object) (rcode : ℕ) (tpl : List CkRawAttr)
    → ((fill_from o rcode tpl).1 ≡ Rv.ckr_ok) ↔ ((rcode ≡ Rv.ckr_ok) × All (Fillable o) tpl)
unfolding fill_from
fill_from_iff o rcode [] = (λ h. (h, tt), λ h. h.0)
fill_from_iff o rcode (raw ∷ tpl) = elim (fill_attr-cases o raw) [
  | inl (a, found, open_, fits, out) ↦
      let ih = fill_from_iff o rcode tpl in
      let same : (fill_from o rcode (raw ∷ tpl)).1 ≡ (fill_from o rcode tpl).1 = ground arith in
      (
        λ h. let (r, all) = ih.0 (sym same ∙ h) in (r, ((a, found, open_, fits), all)),
        λ h. same ∙ ih.1 (h.0, h.1.1),
      )
  | inr (refused, code, ne, out) ↦
      let ih = fill_from_iff o code tpl in
      let same : (fill_from o rcode (raw ∷ tpl)).1 ≡ (fill_from o code tpl).1 = ground arith in
      (λ h. absurd (ne (ih.0 (sym same ∙ h)).0), λ h. absurd (refused h.1.0))
]

-- Filling a template succeeds exactly when the object has each of its attributes, none of them
-- sensitive, and each fits the buffer that the caller gave for it, if any.
pub fill_attr_template_iff :
    (o : Object) (tpl : List CkRawAttr)
    → ((fill_attr_template o tpl).1 ≡ ok tt) ↔ All (Fillable o) tpl
unfolding fill_attr_template
fill_attr_template_iff o tpl =
    let iff = fill_from_iff o Rv.ckr_ok tpl in
    elim (Bool-cases ((fill_from o Rv.ckr_ok tpl).1 == Rv.ckr_ok)) [
      | inl good ↦ (λ h. (iff.0 ((==_iff _ _).0 good)).1, λ h. ground arith)
      | inr bad ↦
          (λ h. ground arith, λ h. let good = (==_iff _ _).1 (iff.1 (refl, h)) in ground arith)
    ]

take-append : (bs cs : Bytes) → take (length bs) (bs ++ cs) ≡ bs
take-append [] cs = refl
take-append (b ∷ bs) cs = ap (λ xs. b ∷ xs) (take-append bs cs)

-- The caller gave a buffer, and not only a length to be told.
abbrev pub Buffered : CkRawAttr → Type 0
Buffered raw = (buf : Bytes) × (raw.value ≡ some buf)

val_bytes-filled_with :
    (a : Attr) (raw : CkRawAttr) → Buffered raw → val_bytes (filled_with a raw) ≡ some (as_bytes a)
unfolding val_bytes
val_bytes-filled_with a raw b =
    let kept = take-append (as_bytes a) (drop (length (as_bytes a)) b.0) in
    let size = attr_len-as_bytes a in ground (arith, kept, size)

fill_from-Matches :
    (o : Object) (tpl : List CkRawAttr) (rcode : ℕ)
    → All (Fillable o) tpl
    → All Buffered tpl
    → All (Matches o) (fill_from o rcode tpl).0
unfolding fill_from
fill_from-Matches o [] rcode f b = tt
fill_from-Matches o (raw ∷ tpl) rcode f b = elim (fill_attr-cases o raw) [
  | inl (a, found, open_, fits, out) ↦
      let is : (fill_attr o raw).0 ≡ filled_with a raw = ground arith in
      (
        subst (Matches o) (sym is) (a, found, val_bytes-filled_with a raw b.0),
        fill_from-Matches o tpl (last_code (fill_attr o raw).1 rcode) f.1 b.1,
      )
  | inr (refused, code, ne, out) ↦ absurd (refused f.0)
]

-- An object other than a mechanism matches the template that it was asked to fill, when it could
-- fill it and every attribute of the template came with a buffer.
pub match-fill :
    (o : Object) (tpl : List CkRawAttr)
    → is_mechanism o ≡ false
    → All Buffered tpl
    → (fill_attr_template o tpl).1 ≡ ok tt
    → match_attr_template o (fill_attr_template o tpl).0 ≡ true
unfolding fill_attr_template
match-fill o tpl m b h =
    let f = (fill_attr_template_iff o tpl).0 h in
    (match_attr_template_iff _ _).1 (fill_from-Matches o tpl Rv.ckr_ok f b, λ e. ground arith)
