-- ===== src/Rpc/Line.antt =====
-- vtok_rpc/src/transport.rs: the lines of a message, as Rust strings: their characters, `trim`,
-- `split_whitespace`, `split(": ")`, and decimal numbers.
pub mod Print
pub mod Trim
use aws_nitro_enclaves_acm.Prelude.{
  ℕ, zero, suc, ◌+◌, ◌-◌, ◌*◌, ◌/◌, ◌%◌, ◌^◌, ◌≤◌, ◌<◌, ◌≡◌, refl, ◌∙◌, ap, Bool, true, false, ◌&&◌,
  ◌||◌, Option, none, some, List, [], ◌∷◌, ◌++◌, Bytes, codes, ltb, leb, ◌==◌, if◌then◌else◌, lead,
  arith, All, inl, inr, Bool-cases,
}

abbrev pub crlf : Bytes
crlf = 13 ∷ 10 ∷ []

-- The value bits of the lead byte of a character of several bytes.
abbrev lead_bits : ℕ → ℕ
lead_bits b = if ltb b 0xe0 then b - 0xc0 else if ltb b 0xf0 then b - 0xe0 else b - 0xf0

abbrev prepend : ℕ → Option (List ℕ) → Option (List ℕ)
prepend c none = none
prepend c (some cs) = some (c ∷ cs)

-- The characters of UTF-8 text: the bytes that the present one still wants, its value so far.
pub decode_from : List (ℕ × ℕ) → ℕ → Bytes → Option (List ℕ)
decode_from [] v [] = some []
decode_from (r ∷ rs) v [] = none
decode_from [] v (b ∷ bs) = elim (lead b) [
  | none ↦ none
  | some [] ↦ prepend b (decode_from [] 0 bs)
  | some (r ∷ rs) ↦ decode_from (r ∷ rs) (lead_bits b) bs
]
decode_from ((lo, hi) ∷ rs) v (b ∷ bs) =
    let w : ℕ = v * 64 + (b - 0x80) in
    if leb lo b && leb b hi
    then elim rs [ [] ↦ prepend w (decode_from [] 0 bs) | q ∷ qs ↦ decode_from (q ∷ qs) w bs ]
    else none

unfoldable pub decode : Bytes → Option (List ℕ)
unfolding decode_from
decode = decode_from [] 0

-- char::is_whitespace
pub is_whitespace : ℕ → Bool
is_whitespace c =
    (leb 9 c && leb c 13)
    || c == 32
    || c == 0x85
    || c == 0xa0
    || c == 0x1680
    || (leb 0x2000 c && leb c 0x200a)
    || c == 0x2028
    || c == 0x2029
    || c == 0x202f
    || c == 0x205f
    || c == 0x3000

pub trim_start : List ℕ → List ℕ
trim_start [] = []
trim_start (c ∷ cs) = let rest = trim_start cs in if is_whitespace c then rest else c ∷ cs

abbrev keep : ℕ → List ℕ → List ℕ
keep c [] = if is_whitespace c then [] else c ∷ []
keep c (d ∷ ds) = c ∷ d ∷ ds

pub trim_end : List ℕ → List ℕ
trim_end [] = []
trim_end (c ∷ cs) = keep c (trim_end cs)

unfoldable pub trim : List ℕ → List ℕ
unfolding trim_start trim_end is_whitespace
trim s = trim_end (trim_start s)

abbrev flush : List ℕ → List (List ℕ) → List (List ℕ)
flush [] ws = ws
flush (c ∷ cs) ws = (c ∷ cs) ∷ ws

pub words_from : List ℕ → List ℕ → List (List ℕ)
words_from w [] = flush w []
words_from w (c ∷ cs) =
    let ended = flush w (words_from [] cs) in
    let longer = words_from (w ++ c ∷ []) cs in if is_whitespace c then ended else longer

-- split_whitespace
unfoldable pub words : List ℕ → List (List ℕ)
unfolding words_from is_whitespace
words = words_from []

-- What stands before the first `: `, and what stands behind it, if it is there.
pub break_colon : List ℕ → List ℕ × Option (List ℕ)
break_colon [] = ([], none)
break_colon (c ∷ []) = (c ∷ [], none)
break_colon (c ∷ d ∷ cs) =
    let (before, behind) = break_colon (d ∷ cs) in
    if c == b':' && d == b' ' then ([], some cs) else (c ∷ before, behind)

-- The first two parts of `split(": ")`.
unfoldable pub split_colon : List ℕ → List ℕ × Option (List ℕ)
unfolding break_colon
split_colon s =
    let (before, behind) = break_colon s in
    (before, elim behind [ none ↦ none | some t ↦ some (break_colon t).0 ])

pub parse_digits : ℕ → List ℕ → Option ℕ
parse_digits v [] = some v
parse_digits v (d ∷ ds) =
    let w : ℕ = v * 10 + (d - b'0') in
    let rest = parse_digits w ds in
    if leb b'0' d && leb d b'9' && ltb w (2 ^ 64) then rest else none

-- str::parse::<usize>
unfoldable pub parse_usize : List ℕ → Option ℕ
unfolding parse_digits
parse_usize [] = none
parse_usize (c ∷ []) = parse_digits 0 (c ∷ [])
parse_usize (c ∷ d ∷ ds) =
    if c == b'+' then parse_digits 0 (d ∷ ds) else parse_digits 0 (c ∷ d ∷ ds)

pub print_digits : ℕ → ℕ → Bytes
print_digits zero n = []
print_digits (suc fuel) n =
    let more = print_digits fuel (n / 10) ++ (b'0' + n % 10) ∷ [] in
    if ltb n 10 then (b'0' + n) ∷ [] else more

-- `{}` of a number, which has fewer digits than its value plus one.
unfoldable pub print_usize : ℕ → Bytes
unfolding print_digits
print_usize n = print_digits (suc n) n

line_example :
    (trim (codes " a b \r\n") ≡ codes "a b")
    × (words (codes "POST /rpc  HTTP/1.1") ≡ codes "POST" ∷ codes "/rpc" ∷ codes "HTTP/1.1" ∷ [])
    × (split_colon (codes "Content-Length: 35: x") ≡ (codes "Content-Length", some (codes "35")))
    × (parse_usize (print_usize 65536) ≡ some 65536)
    × (parse_usize (codes "18446744073709551616") ≡ none)
    × (decode (0xe2 ∷ 0x82 ∷ 0xac ∷ b'a' ∷ []) ≡ some (0x20ac ∷ b'a' ∷ []))
unfolding trim words split_colon parse_usize print_usize decode
line_example = (refl, refl, refl, refl, refl, refl)
