-- ===== src/P11/Session/Chunks.antt =====
-- Reading an enumeration in chunks.
use aws_nitro_enclaves_acm.Prelude.{
  ℕ, zero, suc, ◌+◌, ◌-◌, ◌%◌, ◌≤◌, ◌<◌, ◌≡◌, refl, sym, ap, ◌∙◌, false, Option, none, some, List,
  [], ◌∷◌, ◌++◌, All, length, take, drop, arith, leb, ltb, Bool-cases, inl, inr,
}
use aws_nitro_enclaves_acm.P11.Session.{EnumCtx, next_chunk, chunk_end, chunk_to}
use aws_nitro_enclaves_acm.Common.Defs.{u64_mod}

abbrev pub prepend : List ℕ → Option (List ℕ) → Option (List ℕ)
prepend ret none = none
prepend ret (some rest) = some (ret ++ rest)

-- The chunks that calls with these counts give, one after the other, if none of them panics.
pub chunks : List ℕ → EnumCtx → Option (List ℕ)
unfolding next_chunk
chunks [] ctx = some []
chunks (count ∷ counts) ctx = elim (next_chunk count ctx) [
  | none ↦ none
  | some r ↦ prepend r.0 (chunks counts r.1)
]

pub sum : List ℕ → ℕ
sum [] = 0
sum (n ∷ ns) = n + sum ns

take-zero_add : (b : ℕ) (xs : List ℕ) → take b xs ≡ take (0 + b) xs
take-zero_add b xs = ap (λ n. take n xs) (omega arith)

take-nil : (n : ℕ) → take {A = ℕ} n [] ≡ []
take-nil zero = refl
take-nil (suc n) = refl

drop-nil : (n : ℕ) → drop {A = ℕ} n [] ≡ []
drop-nil zero = refl
drop-nil (suc n) = refl

take-split :
    (a b : ℕ) (xs : List ℕ) → take a xs ++ take b (drop (length (take a xs)) xs) ≡ take (a + b) xs
take-split zero b xs = take-zero_add b xs
take-split (suc a) b [] = take-nil b ∙ sym (take-nil (suc a + b))
take-split (suc a) b (x ∷ xs) =
    let more : suc a + b ≡ suc (a + b) = omega arith in
    ap (λ ys. x ∷ ys) (take-split a b xs) ∙ ap (λ n. take n (x ∷ xs)) (sym more)

drop-drop : (i k : ℕ) (xs : List ℕ) → drop k (drop i xs) ≡ drop (i + k) xs
drop-drop zero k xs = ap (λ n. drop n xs) (omega arith)
drop-drop (suc i) k [] = drop-nil k ∙ sym (drop-nil (suc i + k))
drop-drop (suc i) k (x ∷ xs) =
    let more : suc i + k ≡ suc (i + k) = omega arith in
    drop-drop i k xs ∙ ap (λ n. drop n (x ∷ xs)) (sym more)

take-all : (n : ℕ) (xs : List ℕ) → length xs ≤ n → take n xs ≡ xs
take-all zero [] h = refl
take-all zero (x ∷ xs) h = absurd (omega (arith, h))
take-all (suc n) [] h = refl
take-all (suc n) (x ∷ xs) h = ap (λ ys. x ∷ ys) (take-all n xs (omega (arith, h)))

length-drop : (n : ℕ) (xs : List ℕ) → length (drop n xs) ≡ length xs - n
length-drop zero xs = omega arith
length-drop (suc n) [] = omega arith
length-drop (suc n) (x ∷ xs) = omega (arith, length-drop n xs)

length-take : (n : ℕ) (xs : List ℕ) → length (take n xs) ≤ length xs
length-take zero xs = omega arith
length-take (suc n) [] = omega arith
length-take (suc n) (x ∷ xs) = omega (arith, length-take n xs)

-- The context after the elements that a call gives.
abbrev advanced : ℕ → EnumCtx → EnumCtx
advanced count ctx = record ctx {
  index = ctx.index + length (take count (drop ctx.index ctx.handles));
}

advanced-le :
    (count : ℕ) (ctx : EnumCtx)
    → ctx.index ≤ length ctx.handles
    → (advanced count ctx).index ≤ length ctx.handles
advanced-le count ctx h =
    omega
      (arith, h, length-take count (drop ctx.index ctx.handles), length-drop ctx.index ctx.handles)

picked :
    (stop count : ℕ) (ctx : EnumCtx)
    → ctx.index ≤ stop
    → take (stop - ctx.index) (drop ctx.index ctx.handles) ≡ take count (drop ctx.index ctx.handles)
    → chunk_to stop ctx ≡ some (take count (drop ctx.index ctx.handles), advanced count ctx)
picked stop count ctx h e =
    let fits : ltb stop ctx.index ≡ false = ground (arith, h) in
    rw fits (
      ap {B = Option (List ℕ × EnumCtx)}
        (λ ret. some (ret, record ctx { index = ctx.index + length ret })) e)

next_chunk_lem :
    (count : ℕ) (ctx : EnumCtx)
    → ctx.index ≤ length ctx.handles
    → length ctx.handles + count < u64_mod
    → next_chunk count ctx ≡ some (take count (drop ctx.index ctx.handles), advanced count ctx)
unfolding next_chunk
next_chunk_lem count ctx h k =
    let here = drop ctx.index ctx.handles in
    let sum : (ctx.index + count) % u64_mod ≡ ctx.index + count = omega (arith, h, k) in
    let here_length : length here ≡ length ctx.handles - ctx.index =
      length-drop ctx.index ctx.handles in
    elim (Bool-cases (leb (ctx.index + count) (length ctx.handles))) [
      | inl within ↦
          let stop : chunk_end count ctx ≡ ctx.index + count = ground (arith, sum, within) in
          picked (chunk_end count ctx) count ctx (omega (arith, stop))
            (ap (λ n. take n here) (omega (arith, stop)))
      | inr past ↦
          let stop : chunk_end count ctx ≡ length ctx.handles = ground (arith, sum, past) in
          let more : length ctx.handles < ctx.index + count = ground (arith, past) in
          picked (chunk_end count ctx) count ctx (omega (arith, stop, h)) (
            take-all (chunk_end count ctx - ctx.index) here (omega (arith, stop, here_length))
            ∙ sym (take-all count here (omega (arith, here_length, more))))
    ]

-- However an enumeration is read in chunks, they give its handles in their order, from the one where
-- it stands, each once, as many as were asked for or as there are, and no call panics, if it
-- stands within its handles, and their number and each count add up to less than 2^64.
pub chunks-take :
    (counts : List ℕ) (ctx : EnumCtx)
    → ctx.index ≤ length ctx.handles
    → All (λ count. length ctx.handles + count < u64_mod) counts
    → chunks counts ctx ≡ some (take (sum counts) (drop ctx.index ctx.handles))
unfolding chunks sum
chunks-take [] ctx h k = refl
chunks-take (count ∷ counts) ctx h k =
    let here = drop ctx.index ctx.handles in
    let ret = take count here in
    rw (next_chunk_lem count ctx h k.0, chunks)
      (ap (prepend ret) (chunks-take counts (advanced count ctx) (advanced-le count ctx h) k.1)
        ∙ ap (λ ys. some (ret ++ take (sum counts) ys))
            (sym (drop-drop ctx.index (length ret) ctx.handles))
        ∙ ap some (take-split count (sum counts) here))
