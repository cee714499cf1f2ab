-- ===== src/Rpc/Line/Print.antt =====
-- vtok_rpc/src/transport.rs: the decimal number of a length header reads back.
use aws_nitro_enclaves_acm.Prelude.{
  ℕ, zero, suc, ◌+◌, ◌-◌, ◌*◌, ◌/◌, ◌%◌, ◌^◌, ◌≤◌, ◌<◌, ◌≡◌, refl, ◌∙◌, ap, subst, Option, none,
  some, List, [], ◌∷◌, ◌++◌, Bytes, ltb, arith, All, length, length-append, inl, inr, Bool-cases,
}
use aws_nitro_enclaves_acm.Rpc.Line.{parse_digits, parse_usize, print_digits, print_usize}

abbrev pub IsDigit : ℕ → Type 0
IsDigit d = (b'0' ≤ d) × (d ≤ b'9')

abbrev pub AllDigits : Bytes → Type 0
AllDigits = All IsDigit

pub All-append_intro {ℓ κ} :
    {A : Type ℓ} (P : A → Type κ) (xs ys : List A) → All P xs → All P ys → All P (xs ++ ys)
All-append_intro P [] ys h k = k
All-append_intro P (x ∷ xs) ys h k = (h.0, All-append_intro P xs ys h.1 k)

abbrev then_digit : Option ℕ → ℕ → Option ℕ
then_digit none d = none
then_digit (some v) d = parse_digits v (d ∷ [])

parse_digits-append :
    (xs : Bytes) (v d : ℕ) → parse_digits v (xs ++ d ∷ []) ≡ then_digit (parse_digits v xs) d
unfolding parse_digits
parse_digits-append [] v d = refl
parse_digits-append (x ∷ xs) v d = ground (arith, parse_digits-append xs (v * 10 + (x - b'0')) d)

one_digit : (n : ℕ) → n < 10 → parse_digits 0 ((b'0' + n) ∷ []) ≡ some n
unfolding parse_digits
one_digit n h = ground arith

last_digit : (n : ℕ) → n < 2 ^ 64 → parse_digits (n / 10) ((b'0' + n % 10) ∷ []) ≡ some n
unfolding parse_digits
last_digit n h = ground arith

print_digits_small : (f n : ℕ) → n < 10 → print_digits (suc f) n ≡ (b'0' + n) ∷ []
unfolding print_digits
print_digits_small f n h = ground arith

print_digits_large :
    (f n : ℕ) → 10 ≤ n → print_digits (suc f) n ≡ print_digits f (n / 10) ++ (b'0' + n % 10) ∷ []
unfolding print_digits
print_digits_large f n h = ground arith

parse-print_digits : (f n : ℕ) → n < f → n < 2 ^ 64 → parse_digits 0 (print_digits f n) ≡ some n
parse-print_digits zero n h k = elim h [ ]
parse-print_digits (suc f) n h k = elim (Bool-cases (ltb n 10)) [
  | inl small ↦ rw (print_digits_small f n (ground arith)) (one_digit n (ground arith))
  | inr large ↦ rw (print_digits_large f n (ground arith)) (
      parse_digits-append (print_digits f (n / 10)) 0 (b'0' + n % 10)
      ∙ ap (λ v. then_digit v (b'0' + n % 10))
          (parse-print_digits f (n / 10) (ground arith) (omega arith))
      ∙ last_digit n k)
]

print_digits-AllDigits : (f n : ℕ) → AllDigits (print_digits f n)
print_digits-AllDigits zero n = unfold print_digits in tt
print_digits-AllDigits (suc f) n = elim (Bool-cases (ltb n 10)) [
  | inl small ↦ rw (print_digits_small f n (ground arith)) (ground arith)
  | inr large ↦ rw (print_digits_large f n (ground arith)) (
      All-append_intro IsDigit (print_digits f (n / 10)) _ (print_digits-AllDigits f (n / 10))
        (omega arith))
]

-- The digits, the last one apart.
pub print_digits-last :
    (f n : ℕ) → (front : Bytes) × (print_digits (suc f) n ≡ front ++ (b'0' + n % 10) ∷ [])
print_digits-last f n = elim (Bool-cases (ltb n 10)) [
  | inl small ↦ ([], ground (arith, print_digits_small f n))
  | inr large ↦ (print_digits f (n / 10), print_digits_large f n (ground arith))
]

parse_usize_digits :
    (front : Bytes) (d : ℕ)
    → AllDigits (front ++ d ∷ [])
    → parse_usize (front ++ d ∷ []) ≡ parse_digits 0 (front ++ d ∷ [])
unfolding parse_usize
parse_usize_digits [] d h = refl
parse_usize_digits (x ∷ []) d h = ground arith
parse_usize_digits (x ∷ y ∷ xs) d h = ground arith

pub print_usize-AllDigits : (n : ℕ) → AllDigits (print_usize n)
unfolding print_usize
print_usize-AllDigits n = print_digits-AllDigits (suc n) n

pub print_usize-last : (n : ℕ) → (front : Bytes) × (print_usize n ≡ front ++ (b'0' + n % 10) ∷ [])
unfolding print_usize
print_usize-last n = print_digits-last n n

pub parse-print_usize : (n : ℕ) → n < 2 ^ 64 → parse_usize (print_usize n) ≡ some n
unfolding print_usize
parse-print_usize n h =
    let (front, e) = print_digits-last n n in
    rw e (parse_usize_digits front _ (subst AllDigits e (print_digits-AllDigits (suc n) n)))
    ∙ parse-print_digits (suc n) n (omega arith) h

abbrev pub power_of_ten : ℕ → ℕ
power_of_ten zero = 1
power_of_ten (suc k) = 10 * power_of_ten k

larger : (k n : ℕ) → n < power_of_ten (suc k) → 10 ≤ n → 0 < k
larger zero n h p = absurd (omega arith)
larger (suc k) n h p = omega arith

length-print_digits-le : (k f n : ℕ) → n < power_of_ten k → 0 < k → length (print_digits f n) ≤ k
length-print_digits-le k zero n h p = unfold print_digits in omega arith
length-print_digits-le zero (suc f) n h p = elim p [ ]
length-print_digits-le (suc k) (suc f) n h p = elim (Bool-cases (ltb n 10)) [
  | inl small ↦ rw (print_digits_small f n (ground arith)) (omega arith)
  | inr large ↦ rw (print_digits_large f n (ground arith)) (
      omega (
        arith,
        length-append (print_digits f (n / 10)) ((b'0' + n % 10) ∷ []),
        length-print_digits-le k f (n / 10) (omega arith) (larger k n h (ground arith)),
      ))
]

pub length-print_usize-le : (k n : ℕ) → n < power_of_ten k → 0 < k → length (print_usize n) ≤ k
unfolding print_usize
length-print_usize-le k n h p = length-print_digits-le k (suc n) n h p
