-- ===== src/Rpc/Line/Trim.antt =====
-- vtok_rpc/src/transport.rs: what the string functions do with the lines of a message.
use mathlib.Core.List.{append_assoc, append-nil}
use aws_nitro_enclaves_acm.Prelude.{
  ℕ, ◌≤◌, ◌<◌, ◌≡◌, refl, ◌∙◌, ap, false, none, some, List, [], ◌∷◌, ◌++◌, Bytes, codes, arith, All,
}
use aws_nitro_enclaves_acm.Rpc.Line.{
  decode, decode_from, is_whitespace, trim, trim_start, trim_end, words, words_from, break_colon,
  split_colon, keep, crlf,
}
use aws_nitro_enclaves_acm.Rpc.Line.Print.{AllDigits}

abbrev pub IsAscii : ℕ → Type 0
IsAscii b = b < 128

-- A printable ASCII character other than the space.
abbrev pub IsGraphic : ℕ → Type 0
IsGraphic b = (33 ≤ b) × (b ≤ 126)

pub All-weaken {ℓ κ ι} :
    {A : Type ℓ} {P : A → Type κ} {Q : A → Type ι}
    → ((a : A) → P a → Q a)
    → (xs : List A) → All P xs
    → All Q xs
All-weaken f [] h = tt
All-weaken f (x ∷ xs) h = (f x h.0, All-weaken f xs h.1)

pub decode_ascii : (xs : Bytes) → All IsAscii xs → decode xs ≡ some xs
unfolding decode decode_from
decode_ascii [] h = refl
decode_ascii (x ∷ xs) h = ground (arith, decode_ascii xs h.1)

pub is_whitespace_graphic : (b : ℕ) → IsGraphic b → is_whitespace b ≡ false
unfolding is_whitespace
is_whitespace_graphic b h = ground arith

keep_solid : (x : ℕ) (xs : Bytes) (b : ℕ) → keep x (xs ++ b ∷ []) ≡ x ∷ (xs ++ b ∷ [])
keep_solid x [] b = refl
keep_solid x (y ∷ ys) b = refl

trim_end-crlf : (xs : Bytes) (b : ℕ) → IsGraphic b → trim_end (xs ++ b ∷ crlf) ≡ xs ++ b ∷ []
unfolding trim_end
trim_end-crlf [] b h = unfold is_whitespace in rw (is_whitespace_graphic b h) refl
trim_end-crlf (x ∷ xs) b h = ap (keep x) (trim_end-crlf xs b h) ∙ keep_solid x xs b

-- A line that starts and ends with a character that is not white loses its line end.
pub trim-crlf :
    (a : ℕ) (xs : Bytes) (b : ℕ)
    → IsGraphic a
    → IsGraphic b
    → trim (a ∷ (xs ++ b ∷ crlf)) ≡ a ∷ (xs ++ b ∷ [])
unfolding trim trim_start
trim-crlf a xs b g h = rw (is_whitespace_graphic a g) (trim_end-crlf (a ∷ xs) b h)

words_from_word :
    (xs : Bytes) (w rest : Bytes)
    → All IsGraphic xs
    → words_from w (xs ++ rest) ≡ words_from (w ++ xs) rest
unfolding words_from
words_from_word [] w rest h = rw (append-nil w) refl
words_from_word (x ∷ xs) w rest h = rw (is_whitespace_graphic x h.0) (
    words_from_word xs (w ++ x ∷ []) rest h.1
    ∙ ap (λ v. words_from v rest) (append_assoc w (x ∷ []) xs))

-- The words of a first line, around one that is given.
pub words_line :
    (x : ℕ) (xs : Bytes)
    → All IsGraphic (x ∷ xs)
    → words (codes "POST " ++ ((x ∷ xs) ++ codes " HTTP/1.1"))
      ≡ codes "POST" ∷ (x ∷ xs) ∷ codes "HTTP/1.1" ∷ []
unfolding words
words_line x xs h = ap (λ ws. codes "POST" ∷ ws) (words_from_word (x ∷ xs) [] (codes " HTTP/1.1") h)

break_colon_digits : (ds : Bytes) → AllDigits ds → break_colon ds ≡ (ds, none)
unfolding break_colon
break_colon_digits [] h = refl
break_colon_digits (d ∷ []) h = refl
break_colon_digits (d ∷ e ∷ ds) h = ground (arith, break_colon_digits (e ∷ ds) h.1)

pub split_colon_length :
    (ds : Bytes)
    → AllDigits ds
    → split_colon (codes "Content-Length: " ++ ds) ≡ (codes "Content-Length", some ds)
unfolding split_colon
split_colon_length ds h = rw (break_colon_digits ds h)
