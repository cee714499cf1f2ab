-- ===== src/Srv/Slots/Search.antt =====
-- The slots seen as a map from labels to tokens, and what each write through a search does to it.
use aws_nitro_enclaves_acm.Prelude.{
  ℕ, zero, suc, ◌+◌, ◌≤◌, ◌≡◌, refl, sym, ◌∙◌, inl, inr, Bool, true, false, Option, none, some, [],
  ◌∷◌, Bytes, bytes_eq, bytes_eq→≡, bytes_eq_iff, if◌then◌else◌, set, arith, Option-cases,
  Bool-cases,
}
use aws_nitro_enclaves_acm.Common.Config.{Token, Slots, expire_slots}
use aws_nitro_enclaves_acm.Srv.Slots.{count_label, shift, find_label, find_free}

-- The token of a label.
unfoldable pub lookup : Bytes → Slots → Option Token
lookup label [] = none
lookup label (none ∷ slots) = lookup label slots
lookup label (some tok ∷ slots) = if bytes_eq tok.label label then some tok else lookup label slots

-- No two slots hold tokens of one label.
abbrev pub Unique : Slots → Type 0
Unique slots = (label : Bytes) → count_label label slots ≤ 1

abbrev pub one_if : Bool → ℕ
one_if true = 1
one_if false = 0

abbrev pub token_of : Option (ℕ × Token) → Option Token
token_of none = none
token_of (some (i, tok)) = some tok

token_of-shift : (r : Option (ℕ × Token)) → token_of (shift r) ≡ token_of r
token_of-shift none = refl
token_of-shift (some (i, tok)) = refl

pub lookup-find_label :
    (label : Bytes) (slots : Slots) → lookup label slots ≡ token_of (find_label label slots)
unfolding lookup find_label
lookup-find_label label [] = refl
lookup-find_label label (none ∷ slots) =
    lookup-find_label label slots ∙ sym (token_of-shift (find_label label slots))
lookup-find_label label (some tok ∷ slots) =
    ground (arith, lookup-find_label label slots, token_of-shift (find_label label slots))

pub count_label-zero :
    (label : Bytes) (slots : Slots) → count_label label slots ≡ 0 → lookup label slots ≡ none
unfolding lookup count_label
count_label-zero label [] h = refl
count_label-zero label (none ∷ slots) h = count_label-zero label slots h
count_label-zero label (some tok ∷ slots) h = ground (arith, count_label-zero label slots)

pub find_label-label :
    (label : Bytes) (slots : Slots) (i : ℕ) (tok : Token)
    → find_label label slots ≡ some (i, tok)
    → tok.label ≡ label
unfolding find_label
find_label-label label [] i tok h = cc
find_label-label label (none ∷ slots) i tok h = elim (Option-cases (find_label label slots)) [
  | inl e ↦ ground arith
  | inr ((k, t), e) ↦ ground (arith, find_label-label label slots k t e)
]
find_label-label label (some t ∷ slots) i tok h = elim (Bool-cases (bytes_eq t.label label)) [
  | inl b ↦ ground (arith, bytes_eq→≡ t.label label b)
  | inr b ↦ elim (Option-cases (find_label label slots)) [
    | inl e ↦ ground arith
    | inr ((k, u), e) ↦ ground (arith, find_label-label label slots k u e)
  ]
]

-- A token put into the first free slot.
pub count_label-insert :
    (label : Bytes) (slots : Slots) (i : ℕ) (tok : Token)
    → find_free slots ≡ some i
    → count_label label (set slots i (some tok))
      ≡ count_label label slots + one_if (bytes_eq tok.label label)
unfolding find_free count_label
count_label-insert label [] i tok h = cc
count_label-insert label (none ∷ slots) zero tok h = ground arith
count_label-insert label (none ∷ slots) (suc i) tok h = ground arith
count_label-insert label (some t ∷ slots) zero tok h = ground arith
count_label-insert label (some t ∷ slots) (suc i) tok h =
    ground (arith, count_label-insert label slots i tok)

pub lookup-insert :
    (label : Bytes) (slots : Slots) (i : ℕ) (tok : Token)
    → find_free slots ≡ some i
    → lookup tok.label slots ≡ none
    → lookup label (set slots i (some tok))
      ≡ (if bytes_eq tok.label label then some tok else lookup label slots)
unfolding find_free lookup
lookup-insert label [] i tok h m = cc
lookup-insert label (none ∷ slots) zero tok h m = refl
lookup-insert label (none ∷ slots) (suc i) tok h m = ground arith
lookup-insert label (some t ∷ slots) zero tok h m = ground arith
lookup-insert label (some t ∷ slots) (suc i) tok h m = ground (
  arith,
  lookup-insert label slots i tok,
  bytes_eq_iff tok.label label,
  bytes_eq_iff t.label label,
  bytes_eq_iff t.label tok.label,
)

-- The token that a search found, replaced.
pub count_label-replace :
    (label l : Bytes) (slots : Slots) (i : ℕ) (old new : Token)
    → find_label l slots ≡ some (i, old)
    → count_label label (set slots i (some new)) + one_if (bytes_eq old.label label)
      ≡ count_label label slots + one_if (bytes_eq new.label label)
unfolding find_label count_label
count_label-replace label l [] i old new h = cc
count_label-replace label l (none ∷ slots) zero old new h =
    ground (arith, Option-cases (find_label l slots))
count_label-replace label l (none ∷ slots) (suc i) old new h =
    ground (arith, Option-cases (find_label l slots), count_label-replace label l slots i old new)
count_label-replace label l (some t ∷ slots) zero old new h =
    ground (arith, Option-cases (find_label l slots))
count_label-replace label l (some t ∷ slots) (suc i) old new h =
    ground (arith, Option-cases (find_label l slots), count_label-replace label l slots i old new)

pub lookup-replace :
    (label : Bytes) (slots : Slots) (i : ℕ) (old new : Token)
    → find_label new.label slots ≡ some (i, old)
    → lookup label (set slots i (some new))
      ≡ (if bytes_eq new.label label then some new else lookup label slots)
unfolding find_label lookup
lookup-replace label [] i old new h = cc
lookup-replace label (none ∷ slots) zero old new h =
    ground (arith, Option-cases (find_label new.label slots))
lookup-replace label (none ∷ slots) (suc i) old new h =
    ground (arith, Option-cases (find_label new.label slots), lookup-replace label slots i old new)
lookup-replace label (some t ∷ slots) zero old new h = ground (
  arith,
  Option-cases (find_label new.label slots),
  bytes_eq_iff new.label label,
  bytes_eq_iff t.label label,
  bytes_eq_iff t.label new.label,
)
lookup-replace label (some t ∷ slots) (suc i) old new h = ground (
  arith,
  Option-cases (find_label new.label slots),
  lookup-replace label slots i old new,
  bytes_eq_iff new.label label,
  bytes_eq_iff t.label label,
  bytes_eq_iff t.label new.label,
)

-- The slot of the token that a search found, emptied.
pub count_label-delete :
    (label l : Bytes) (slots : Slots) (i : ℕ) (old : Token)
    → find_label l slots ≡ some (i, old)
    → count_label label (set slots i none) + one_if (bytes_eq old.label label)
      ≡ count_label label slots
unfolding find_label count_label
count_label-delete label l [] i old h = cc
count_label-delete label l (none ∷ slots) zero old h =
    ground (arith, Option-cases (find_label l slots))
count_label-delete label l (none ∷ slots) (suc i) old h =
    ground (arith, Option-cases (find_label l slots), count_label-delete label l slots i old)
count_label-delete label l (some t ∷ slots) zero old h =
    ground (arith, Option-cases (find_label l slots))
count_label-delete label l (some t ∷ slots) (suc i) old h =
    ground (arith, Option-cases (find_label l slots), count_label-delete label l slots i old)

pub lookup-delete :
    (label l : Bytes) (slots : Slots) (i : ℕ) (old : Token)
    → find_label l slots ≡ some (i, old)
    → count_label l slots ≤ 1
    → lookup label (set slots i none) ≡ (if bytes_eq l label then none else lookup label slots)
unfolding find_label lookup count_label
lookup-delete label l [] i old h u = cc
lookup-delete label l (none ∷ slots) zero old h u =
    ground (arith, Option-cases (find_label l slots))
lookup-delete label l (none ∷ slots) (suc i) old h u =
    ground (arith, Option-cases (find_label l slots), lookup-delete label l slots i old)
lookup-delete label l (some t ∷ slots) zero old h u = ground (
  arith,
  Option-cases (find_label l slots),
  count_label-zero l slots,
  bytes_eq_iff l label,
  bytes_eq_iff t.label label,
  bytes_eq_iff t.label l,
)
lookup-delete label l (some t ∷ slots) (suc i) old h u = ground (
  arith,
  Option-cases (find_label l slots),
  lookup-delete label l slots i old,
  bytes_eq_iff l label,
  bytes_eq_iff t.label label,
  bytes_eq_iff t.label l,
)

-- Expiry drops tokens only.
pub count_label-expire :
    (label : Bytes) (clock : ℕ → ℕ) (slots : Slots)
    → count_label label (expire_slots clock slots) ≤ count_label label slots
unfolding expire_slots count_label
count_label-expire label clock [] = omega arith
count_label-expire label clock (none ∷ slots) =
    ground (arith, count_label-expire label (λ i. clock (suc i)) slots)
count_label-expire label clock (some t ∷ slots) =
    ground (arith, count_label-expire label (λ i. clock (suc i)) slots)
