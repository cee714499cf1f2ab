-- ===== src/Prelude/Text.antt =====
-- Rust strings and byte slices, both as lists of bytes: `len()` is `length`, `as_bytes()` is the
-- identity, and `==` is `bytes_eq`.
use Prim.Native.Nat.{ℕ, zero, suc, ◌+◌, ◌-◌, ◌/◌, ◌%◌}
use mathlib.Core.Option.{Option, none, some}
use Prim.Native.Char.{code}
use Prim.Native.String.{String}
use mathlib.Core.Path.{◌≡◌, refl, subst}
use mathlib.Core.Logic.{◌↔◌}
use mathlib.Core.Bool.{Bool, true, false, ◌&&◌}
use mathlib.Core.List.{List, [], ◌∷◌}
use native.Mathlib.Omega.{arith}
use aws_nitro_enclaves_acm.Prelude.Tests.{◌==◌, leb, ltb, if◌then◌else◌}

abbrev pub Bytes : Type 0
Bytes = List ℕ

-- The bytes of an ASCII literal.
abbrev pub codes : String → Bytes
codes String.[] = []
codes (String.◌∷◌ c s) = code c ∷ codes s

unfoldable pub bytes_eq : Bytes → Bytes → Bool
bytes_eq [] [] = true
bytes_eq [] (y ∷ ys) = false
bytes_eq (x ∷ xs) [] = false
bytes_eq (x ∷ xs) (y ∷ ys) = x == y && bytes_eq xs ys

pub bytes_eq_refl : (xs : Bytes) → bytes_eq xs xs ≡ true
unfolding bytes_eq
bytes_eq_refl [] = refl
bytes_eq_refl (x ∷ xs) = ground (arith, bytes_eq_refl xs)

pub bytes_eq→≡ : (xs ys : Bytes) → bytes_eq xs ys ≡ true → xs ≡ ys
unfolding bytes_eq
bytes_eq→≡ [] [] h = refl
bytes_eq→≡ [] (y ∷ ys) h = cc
bytes_eq→≡ (x ∷ xs) [] h = cc
bytes_eq→≡ (x ∷ xs) (y ∷ ys) h = ground (arith, bytes_eq→≡ xs ys)

pub bytes_eq_iff : (xs ys : Bytes) → (bytes_eq xs ys ≡ true) ↔ (xs ≡ ys)
bytes_eq_iff xs ys =
    (bytes_eq→≡ xs ys, λ e. subst (λ zs. bytes_eq xs zs ≡ true) e (bytes_eq_refl xs))

-- UTF-8: the ranges of the bytes that must follow a lead byte.
abbrev pub tail_range : ℕ × ℕ
tail_range = (0x80, 0xbf)

abbrev pub lead : ℕ → Option (List (ℕ × ℕ))
lead b =
    if ltb b 0x80
    then some []
    else if ltb b 0xc2
    then none
    else if ltb b 0xe0
    then some (tail_range ∷ [])
    else if b == 0xe0
    then some ((0xa0, 0xbf) ∷ tail_range ∷ [])
    else if b == 0xed
    then some ((0x80, 0x9f) ∷ tail_range ∷ [])
    else if ltb b 0xf0
    then some (tail_range ∷ tail_range ∷ [])
    else if b == 0xf0
    then some ((0x90, 0xbf) ∷ tail_range ∷ tail_range ∷ [])
    else if ltb b 0xf4
    then some (tail_range ∷ tail_range ∷ tail_range ∷ [])
    else if b == 0xf4
    then some ((0x80, 0x8f) ∷ tail_range ∷ tail_range ∷ [])
    else none

valid_utf8 : List (ℕ × ℕ) → Bytes → Bool
valid_utf8 [] [] = true
valid_utf8 (r ∷ rs) [] = false
valid_utf8 [] (b ∷ bs) = elim (lead b) [ none ↦ false | some rs ↦ valid_utf8 rs bs ]
valid_utf8 ((lo, hi) ∷ rs) (b ∷ bs) = leb lo b && leb b hi && valid_utf8 rs bs

-- `String::from_utf8`
unfoldable pub from_utf8 : Bytes → Option Bytes
unfolding valid_utf8
from_utf8 bytes = if valid_utf8 [] bytes then some bytes else none

-- The digit of a number below 16, by the code of the first letter digit.
abbrev hex_digit : ℕ → ℕ → ℕ
hex_digit ten d = if ltb d 10 then b'0' + d else ten + (d - 10)

hex_digits : ℕ → ℕ → ℕ → Bytes → Bytes
hex_digits ten zero n acc = acc
hex_digits ten (suc fuel) n acc =
    let rest = hex_digits ten fuel (n / 16) (hex_digit ten (n % 16) ∷ acc) in
    if n == 0 then acc else rest

-- `{:02X}` and `{:02x}` of a 64-bit number, which has 16 digits at most.
abbrev pad_two : Bytes → Bytes
pad_two [] = b'0' ∷ b'0' ∷ []
pad_two (d ∷ []) = b'0' ∷ d ∷ []
pad_two (d ∷ e ∷ ds) = d ∷ e ∷ ds

unfoldable pub hex_upper : ℕ → Bytes
unfolding hex_digits
hex_upper n = pad_two (hex_digits b'A' 16 n [])

unfoldable pub hex_lower : ℕ → Bytes
unfolding hex_digits
hex_lower n = pad_two (hex_digits b'a' 16 n [])

hex_example :
    (hex_upper 171 ≡ codes "AB") × (hex_lower 5 ≡ codes "05") × (hex_lower 4660 ≡ codes "1234")
unfolding hex_upper hex_lower
hex_example = (refl, refl, refl)

from_utf8_example :
    (from_utf8 (0xe2 ∷ 0x82 ∷ 0xac ∷ []) ≡ some (0xe2 ∷ 0x82 ∷ 0xac ∷ []))
    × (from_utf8 (0xc0 ∷ 0x80 ∷ []) ≡ none)
    × (from_utf8 (0xed ∷ 0xa0 ∷ 0x80 ∷ []) ≡ none)
unfolding from_utf8
from_utf8_example = (refl, refl, refl)
