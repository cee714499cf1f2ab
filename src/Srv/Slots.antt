-- ===== src/Srv/Slots.antt =====
-- vtok_srv/src/worker.rs: the searches over the slots. A search that hands out `&mut` returns the
-- slot's index, and the write goes through `set`.
pub mod Search
use aws_nitro_enclaves_acm.Prelude.{
  ℕ, zero, suc, ◌+◌, Option, none, some, List, [], ◌∷◌, Bytes, bytes_eq, if◌then◌else◌,
}
use aws_nitro_enclaves_acm.Common.Config.{Token, Slots}

-- How many slots hold a token of that label.
unfoldable pub count_label : Bytes → Slots → ℕ
count_label label [] = 0
count_label label (none ∷ slots) = count_label label slots
count_label label (some tok ∷ slots) =
    (if bytes_eq tok.label label then 1 else 0) + count_label label slots

abbrev pub shift : Option (ℕ × Token) → Option (ℕ × Token)
shift none = none
shift (some (i, tok)) = some (suc i, tok)

-- The first slot that holds a token of that label.
unfoldable pub find_label : Bytes → Slots → Option (ℕ × Token)
find_label label [] = none
find_label label (none ∷ slots) = shift (find_label label slots)
find_label label (some tok ∷ slots) =
    if bytes_eq tok.label label then some (0, tok) else shift (find_label label slots)

abbrev pub shift_index : Option ℕ → Option ℕ
shift_index none = none
shift_index (some i) = some (suc i)

-- The first free slot.
unfoldable pub find_free : Slots → Option ℕ
find_free [] = none
find_free (none ∷ slots) = some 0
find_free (some tok ∷ slots) = shift_index (find_free slots)
