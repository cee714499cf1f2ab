-- ===== src/Rpc/Validators/Accepts.antt =====
-- Which requests pass: an independent description by distinctness and length bounds.
use aws_nitro_enclaves_acm.Prelude.{
  ℕ, ◌≤◌, ◌≡◌, ◌≢◌, ◌↔◌, refl, false, List, [], ◌∷◌, Bytes, bytes_eq_iff, length, All, ok, arith,
}
use aws_nitro_enclaves_acm.Rpc.Schema.{PrivateKey, Token}
use aws_nitro_enclaves_acm.Rpc.Validators.{
  has_id, has_label, validate_token_pin, validate_token_label, validate_keys, validate_token,
}

-- A key's id and label differ from those of every other key in the list.
abbrev pub Differs : PrivateKey → PrivateKey → Type 0
Differs k k' = (k'.id ≢ k.id) × (k'.label ≢ k.label)

abbrev pub Distinct : List PrivateKey → Type 0
Distinct [] = Unit
Distinct (k ∷ ks) = All (Differs k) ks × Distinct ks

abbrev pub PinFits : Bytes → Type 0
PinFits pin = (4 ≤ length pin) × (length pin ≤ 64)

abbrev pub LabelFits : Bytes → Type 0
LabelFits label = (1 ≤ length label) × (length label ≤ 32)

abbrev pub TokenFits : Token → Type 0
TokenFits t = PinFits t.pin × LabelFits t.label × Distinct t.keys

pin_iff : (pin : Bytes) → (validate_token_pin pin ≡ ok tt) ↔ PinFits pin
unfolding validate_token_pin
pin_iff pin = (λ h. ground arith, λ h. ground arith)

label_iff : (label : Bytes) → (validate_token_label label ≡ ok tt) ↔ LabelFits label
unfolding validate_token_label
label_iff label = (λ h. ground arith, λ h. ground arith)

-- The key is new to the sets of ids and labels seen so far.
abbrev Fresh : List ℕ → List Bytes → PrivateKey → Type 0
Fresh ids labels k = (has_id k.id ids ≡ false) × (has_label k.label labels ≡ false)

Fresh-cons :
    (ids : List ℕ) (labels : List Bytes) (k k' : PrivateKey)
    → Fresh (k.id ∷ ids) (k.label ∷ labels) k' ↔ (Differs k k' × Fresh ids labels k')
unfolding has_id has_label
Fresh-cons ids labels k k' = (
  λ h. ground (arith, bytes_eq_iff k'.label k.label),
  λ h. ground (arith, bytes_eq_iff k'.label k.label),
)

All-Fresh-cons :
    (ids : List ℕ) (labels : List Bytes) (k : PrivateKey) (ks : List PrivateKey)
    → All (Fresh (k.id ∷ ids) (k.label ∷ labels)) ks
    → All (Differs k) ks × All (Fresh ids labels) ks
All-Fresh-cons ids labels k [] h = (tt, tt)
All-Fresh-cons ids labels k (k' ∷ ks) h =
    let head = (Fresh-cons ids labels k k').0 h.0 in
    let rest = All-Fresh-cons ids labels k ks h.1 in ((head.0, rest.0), (head.1, rest.1))

cons-All-Fresh :
    (ids : List ℕ) (labels : List Bytes) (k : PrivateKey) (ks : List PrivateKey)
    → All (Differs k) ks
    → All (Fresh ids labels) ks
    → All (Fresh (k.id ∷ ids) (k.label ∷ labels)) ks
cons-All-Fresh ids labels k [] d f = tt
cons-All-Fresh ids labels k (k' ∷ ks) d f =
    ((Fresh-cons ids labels k k').1 (d.0, f.0), cons-All-Fresh ids labels k ks d.1 f.1)

validate_keys_sound :
    (ids : List ℕ) (labels : List Bytes) (ks : List PrivateKey)
    → validate_keys ids labels ks ≡ ok tt
    → All (Fresh ids labels) ks × Distinct ks
unfolding validate_keys
validate_keys_sound ids labels [] h = (tt, tt)
validate_keys_sound ids labels (k ∷ ks) h =
    let rec = validate_keys_sound (k.id ∷ ids) (k.label ∷ labels) ks (ground arith) in
    let rest = All-Fresh-cons ids labels k ks rec.0 in ((ground arith, rest.1), (rest.0, rec.1))

validate_keys_complete :
    (ids : List ℕ) (labels : List Bytes) (ks : List PrivateKey)
    → All (Fresh ids labels) ks
    → Distinct ks
    → validate_keys ids labels ks ≡ ok tt
unfolding validate_keys
validate_keys_complete ids labels [] f d = refl
validate_keys_complete ids labels (k ∷ ks) f d = ground (
  arith,
  validate_keys_complete (k.id ∷ ids) (k.label ∷ labels) ks (cons-All-Fresh ids labels k ks d.0 f.1)
      d.1,
)

All-Fresh-nil : (ks : List PrivateKey) → All (Fresh [] []) ks
unfolding has_id has_label
All-Fresh-nil [] = tt
All-Fresh-nil (k ∷ ks) = ((refl, refl), All-Fresh-nil ks)

-- `validate_token` accepts exactly the tokens whose PIN has 4 to 64 bytes, whose label has 1 to 32
-- bytes, and whose keys have pairwise distinct ids and pairwise distinct labels.
pub validate_token_iff : (t : Token) → (validate_token t ≡ ok tt) ↔ TokenFits t
unfolding validate_token validate_token_pin validate_token_label
validate_token_iff t = (
  λ h. (
    (pin_iff t.pin).0 (ground arith),
    (label_iff t.label).0 (ground arith),
    (validate_keys_sound [] [] t.keys (ground arith)).1,
  ),
  λ f. ground (
    arith,
    (pin_iff t.pin).1 f.0,
    (label_iff t.label).1 f.1,
    validate_keys_complete [] [] t.keys (All-Fresh-nil t.keys) f.2,
  ),
)
