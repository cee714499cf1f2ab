-- ===== src/Rpc/Reader/Reference.antt =====
-- vtok_rpc/src/transport.rs: what a reader gives is a function of the bytes that the peer sent and of
-- how many of them it may take, whichever the pieces in which they come.
use aws_nitro_enclaves_acm.Prelude.{
  ℕ, zero, suc, ◌+◌, ◌-◌, ◌≤◌, ◌<◌, ◌≡◌, refl, sym, ap, ◌∙◌, true, false, List, [], ◌∷◌, ◌++◌,
  Bytes, ltb, if◌then◌else◌, ok, err, take, drop, length, arith, ◌⊎◌, inl, inr, Bool-cases,
  length-append,
}
use mathlib.Core.List.{append_assoc}
use aws_nitro_enclaves_acm.Rpc.Reader.{io_error, Reader, capacity, granted, take_read, fill_buf}

-- The bytes that are still to be read.
abbrev pub total : Reader → Bytes
total r = r.buffered ++ r.incoming

-- How many of them may be read.
abbrev pub credit : Reader → ℕ
credit r = length r.buffered + r.limit

-- From `r` to `s` the bytes `pre` were read.
pub record Takes (r s : Reader) (pre : Bytes) : Type 0 where
  pub left : total r ≡ pre ++ total s
  pub spent : credit r ≡ length pre + credit s
  pub same : s.closed ≡ r.closed

pub Takes-byte :
    (r s : Reader) (b : ℕ) (bs : Bytes)
    → Takes r s []
    → s.buffered ≡ b ∷ bs
    → Takes r (record s { buffered = bs }) (b ∷ [])
Takes-byte r s b bs t e = record { left = ground arith; spent = ground arith; same = t.same }

pub Takes-append :
    {r s t : Reader} (xs ys : Bytes) → Takes r s xs → Takes s t ys → Takes r t (xs ++ ys)
Takes-append {r} {s} {t} xs ys f g = record {
  left = f.left ∙ ap (λ zs. xs ++ zs) g.left ∙ sym (append_assoc xs ys (total t));
  spent = omega (arith, f.spent, g.spent, length-append xs ys);
  same = g.same ∙ f.same;
}

pub Takes-nothing : (r : Reader) → Takes r r []
Takes-nothing r = record { left = refl; spent = omega arith; same = refl }

pub take-drop {ℓ} : {A : Type ℓ} (n : ℕ) (xs : List A) → take n xs ++ drop n xs ≡ xs
take-drop zero xs = refl
take-drop (suc n) [] = refl
take-drop (suc n) (x ∷ xs) = ap (λ ys. x ∷ ys) (take-drop n xs)

pub length-take-le {ℓ} : {A : Type ℓ} (n : ℕ) (xs : List A) → length (take n xs) ≤ n
length-take-le zero xs = omega arith
length-take-le (suc n) [] = omega arith
length-take-le (suc n) (x ∷ xs) = omega (arith, length-take-le n xs)

granted-le : (most wish : ℕ) → 0 < most → granted most wish ≤ most
granted-le most wish h = ground arith

granted_pos : (most wish : ℕ) → 0 < most → 0 < granted most wish
granted_pos most wish h = ground arith

pub ℕ-cases : (n : ℕ) → (n ≡ 0) ⊎ (0 < n)
ℕ-cases zero = inl refl
ℕ-cases (suc n) = inr (omega arith)

pub List-cases {ℓ} :
    {A : Type ℓ} (xs : List A) → (xs ≡ []) ⊎ ((x : A) × (ys : List A) × (xs ≡ x ∷ ys))
List-cases [] = inl refl
List-cases (x ∷ xs) = inr (x, xs, refl)

module _ (chunk : ℕ → ℕ) where
  -- What a read of the stream gives.
  pub data Given (most : ℕ) (r : Reader) : Type 0 where
    some_bytes :
        (b : ℕ) (bs : Bytes) (s : Reader)
        → take_read chunk most r ≡ (ok (b ∷ bs), s)
        → r.incoming ≡ b ∷ (bs ++ s.incoming)
        → r.limit ≡ suc (length bs) + s.limit
        → suc (length bs) ≤ most
        → s.closed ≡ r.closed
        → s.buffered ≡ r.buffered
        → Given most r
    at_limit : take_read chunk most r ≡ (ok [], r) → r.limit ≡ 0 → Given most r
    at_end :
        take_read chunk most r ≡ (ok [], r)
        → r.incoming ≡ []
        → r.closed ≡ true
        → 0 < r.limit
        → Given most r
    failed :
        take_read chunk most r ≡ (err io_error, r)
        → r.incoming ≡ []
        → r.closed ≡ false
        → 0 < r.limit
        → Given most r

  take_read_some :
      (most n b : ℕ) (bs : Bytes) (r : Reader)
      → n ≡ granted (if ltb r.limit most then r.limit else most) (chunk (length (b ∷ bs)))
      → 0 < most
      → 0 < r.limit
      → r.incoming ≡ b ∷ bs
      → Given most r
  unfolding take_read
  take_read_some most zero b bs r e h l i = absurd (ground arith)
  take_read_some most (suc k) b bs r e h l i =
      some_bytes b (take k bs)
        (record {
          buffered = r.buffered;
          limit = r.limit - length (take (suc k) (b ∷ bs));
          stream = record { incoming = drop k bs; closed = r.closed };
        })
        (rw i (ground arith)) (rw i (rw (take-drop k bs) refl))
        (ground (arith, length-take-le k bs)) (ground (arith, length-take-le k bs)) refl refl

  pub take_read-Given : (most : ℕ) (r : Reader) → 0 < most → Given most r
  unfolding take_read
  take_read-Given most r h = elim (ℕ-cases r.limit) [
    | inl none_left ↦ at_limit (ground arith) none_left
    | inr some_left ↦ elim (List-cases r.incoming) [
      | inr (b, bs, here) ↦ take_read_some most _ b bs r refl h some_left here
      | inl nothing ↦ elim (Bool-cases r.closed) [
        | inl shut ↦ at_end (ground arith) nothing shut some_left
        | inr open_yet ↦ failed (ground arith) nothing open_yet some_left
      ]
    ]
  ]

  -- What filling the buffer does.
  pub data Filled (r : Reader) : Type 0 where
    ready :
        (b : ℕ) (bs : Bytes) (s : Reader)
        → fill_buf chunk r ≡ (ok tt, s)
        → s.buffered ≡ b ∷ bs
        → Takes r s []
        → Filled r
    at_limit : fill_buf chunk r ≡ (ok tt, r) → r.buffered ≡ [] → r.limit ≡ 0 → Filled r
    at_end :
        fill_buf chunk r ≡ (ok tt, r)
        → r.buffered ≡ []
        → r.incoming ≡ []
        → r.closed ≡ true
        → 0 < r.limit
        → Filled r
    failed :
        fill_buf chunk r ≡ (err io_error, r)
        → r.buffered ≡ []
        → r.incoming ≡ []
        → r.closed ≡ false
        → 0 < r.limit
        → Filled r

  fill_empty : (r : Reader) → r.buffered ≡ [] → Given capacity r → Filled r
  unfolding fill_buf
  fill_empty r e (some_bytes b bs s g i l m c k) =
      ready b bs (record s { buffered = b ∷ bs }) (ground (arith, g)) refl
        (record { left = ground arith; spent = ground arith; same = c })
  fill_empty r e (at_limit g l) = at_limit (ground arith) e l
  fill_empty r e (at_end g i c l) = at_end (ground arith) e i c l
  fill_empty r e (failed g i c l) = failed (ground arith) e i c l

  pub fill_buf-Filled : (r : Reader) → Filled r
  unfolding fill_buf
  fill_buf-Filled r = elim (List-cases r.buffered) [
    | inl empty ↦ fill_empty r empty (take_read-Given capacity r (omega arith))
    | inr (b, bs, there) ↦
        ready b bs r (ground arith) there (record { left = refl; spent = omega arith; same = refl })
  ]
