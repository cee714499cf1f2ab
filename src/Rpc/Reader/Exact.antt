-- ===== src/Rpc/Reader/Exact.antt =====
-- vtok_rpc/src/transport.rs: `read_exact` gives the bytes asked for if they are there and may be read,
-- whichever the pieces in which they come.
use mathlib.Core.List.{append_assoc, append-nil}
use native.Mathlib.Nat.{zero-add, suc-add}
use aws_nitro_enclaves_acm.Prelude.{
  ℕ, zero, suc, ◌+◌, ◌-◌, ◌≤◌, ◌≡◌, refl, sym, ap, ◌∙◌, subst, true, ◌&&◌, [], ◌∷◌, ◌++◌, Bytes,
  leb, Result, ok, err, ◌>>=◌, take, drop, length, arith, ◌⊎◌, inl, inr, Bool-cases, Result-cases,
  length-append,
}
use aws_nitro_enclaves_acm.Prelude.Exec.{continue}
use aws_nitro_enclaves_acm.Rpc.Reader.{
  TransportError, io_error, Reader, capacity, take_read, fill_buf, read, serve, is_nil, read_exact,
}
use aws_nitro_enclaves_acm.Rpc.Reader.Reference.{
  total, credit, Takes, Takes-append, Takes-nothing, take-drop, length-take-le, Given, Filled,
  take_read-Given, fill_buf-Filled,
}
use aws_nitro_enclaves_acm.Rpc.Reader.Reference

-- `n` bytes, of those that may be read.
unfoldable pub exactly : ℕ → ℕ → Bytes → Result TransportError Bytes
exactly zero c bytes = ok []
exactly (suc n) zero bytes = err io_error
exactly (suc n) (suc c) [] = err io_error
exactly (suc n) (suc c) (b ∷ bs) = exactly n c bs >>= (λ more. ok (b ∷ more))

bind_ok : {E : Type 0} {A : Type 0} (m : Result E A) → (m >>= λ a. ok a) ≡ m
bind_ok (ok a) = refl
bind_ok (err e) = refl

bind_bind :
    {E : Type 0} {A B C : Type 0} (m : Result E A) (f : A → B) (g : B → C)
    → ((m >>= λ a. ok (f a)) >>= λ b. ok (g b)) ≡ (m >>= λ a. ok (g (f a)))
bind_bind (ok a) f g = refl
bind_bind (err e) f g = refl

exactly_step :
    (n c b : ℕ) (bs : Bytes)
    → exactly (suc n) (suc c) (b ∷ bs) ≡ (exactly n c bs >>= (λ more. ok (b ∷ more)))
unfolding exactly
exactly_step n c b bs = refl

exactly-append :
    (xs : Bytes) (n c : ℕ) (ys : Bytes)
    → exactly (length xs + n) (length xs + c) (xs ++ ys)
      ≡ (exactly n c ys >>= (λ more. ok (xs ++ more)))
exactly-append [] n c ys = rw zero-add (rw zero-add (sym (bind_ok (exactly n c ys))))
exactly-append (x ∷ xs) n c ys = rw suc-add (
    rw suc-add (
      exactly_step (length xs + n) (length xs + c) x (xs ++ ys)
      ∙ ap (λ m. m >>= (λ more. ok (x ∷ more))) (exactly-append xs n c ys)
      ∙ bind_bind (exactly n c ys) (λ more. xs ++ more) (λ more. x ∷ more)))

-- What a read of at most `n` bytes gives.
data Served (n : ℕ) (r : Reader) (m : Result TransportError Bytes × Reader) : Type 0 where
  some_bytes :
      (b : ℕ) (bs : Bytes)
      → m.0 ≡ ok (b ∷ bs)
      → Takes r m.1 (b ∷ bs)
      → suc (length bs) ≤ n
      → Served n r m
  nothing : m.0 ≡ ok [] → m.1 ≡ r → (credit r ≡ 0) ⊎ (total r ≡ []) → Served n r m
  failed : m.0 ≡ err io_error → m.1 ≡ r → total r ≡ [] → Served n r m

module _ (chunk : ℕ → ℕ) where
  Served-Given :
      (n : ℕ) (r : Reader) → r.buffered ≡ [] → Given chunk n r → Served n r (take_read chunk n r)
  Served-Given n r e (Reference.some_bytes b bs s g i l m c k) =
      subst (Served n r) (sym g)
        (some_bytes b bs refl (record { left = ground arith; spent = ground arith; same = c }) m)
  Served-Given n r e (Reference.at_limit g l) =
      subst (Served n r) (sym g) (nothing refl refl (inl (ground arith)))
  Served-Given n r e (Reference.at_end g i c l) =
      subst (Served n r) (sym g) (nothing refl refl (inr (ground arith)))
  Served-Given n r e (Reference.failed g i c l) =
      subst (Served n r) (sym g) (failed refl refl (ground arith))

  Served-Filled :
      (n : ℕ) (r : Reader)
      → Filled chunk r
      → Served
          (suc n)
          r
          (continue (fill_buf chunk r).0 (λ _. serve chunk (suc n)) (fill_buf chunk r).1)
  Served-Filled n r (Reference.ready b bs s f there t) = rw f (
      rw there (
        some_bytes b (take n bs) refl
          (record {
            left = ground (arith, take-drop n bs, append_assoc (take n bs) (drop n bs) s.incoming);
            spent = ground (arith, take-drop n bs, length-append (take n bs) (drop n bs));
            same = t.same;
          })
          (ground (arith, length-take-le n bs))))
  Served-Filled n r (Reference.at_limit f e l) =
      rw f (nothing (rw e refl) (ground arith) (inl (ground arith)))
  Served-Filled n r (Reference.at_end f e i c l) =
      rw f (nothing (rw e refl) (ground arith) (inr (ground arith)))
  Served-Filled n r (Reference.failed f e i c l) = rw f (failed refl refl (ground arith))

  is_nil→≡ : (xs : Bytes) → is_nil chunk xs ≡ true → xs ≡ []
  is_nil→≡ [] h = refl
  is_nil→≡ (x ∷ xs) h = cc

  read-Served : (n : ℕ) (r : Reader) → Served (suc n) r (read chunk (suc n) r)
  unfolding read
  read-Served n r = elim (Bool-cases (leb capacity (suc n) && is_nil chunk r.buffered)) [
    | inl past ↦ rw past (
        Served-Given (suc n) r (is_nil→≡ r.buffered (ground arith))
          (take_read-Given chunk (suc n) r (omega arith)))
    | inr through ↦ rw through (Served-Filled n r (fill_buf-Filled chunk r))
  ]

-- What was read, where reading `n` bytes of `r` gave `m`.
pub record Exact (n : ℕ) (r : Reader) (m : Result TransportError Bytes × Reader) : Type 0 where
  pub taken : Bytes
  pub takes : Takes r m.1 taken
  pub gives : m.0 ≡ exactly n (credit r) (total r)

exactly-none :
    (n c : ℕ) (bytes : Bytes) → (c ≡ 0) ⊎ (bytes ≡ []) → exactly (suc n) c bytes ≡ err io_error
unfolding exactly
exactly-none n zero bytes h = refl
exactly-none n (suc c) [] h = refl
exactly-none n (suc c) (b ∷ bs) h = ground arith

Exact-none :
    (n : ℕ) (r s : Reader)
    → s ≡ r
    → (credit r ≡ 0) ⊎ (total r ≡ [])
    → Exact (suc n) r (err io_error, s)
Exact-none n r s e h =
    subst (λ t. Exact (suc n) r (err io_error, t)) (sym e)
      (record {
        taken = [];
        takes = Takes-nothing r;
        gives = sym (exactly-none n (credit r) (total r) h);
      })

exactly_more :
    (n : ℕ) (r : Reader) (b : ℕ) (bs : Bytes) (s : Reader)
    → Takes r s (b ∷ bs)
    → suc (length bs) ≤ suc n
    → exactly (suc n) (credit r) (total r)
      ≡ (exactly (n - length bs) (credit s) (total s) >>= (λ more. ok (b ∷ (bs ++ more))))
exactly_more n r b bs s t m =
    let wanted : suc n ≡ length (b ∷ bs) + (n - length bs) = omega arith in
    rw (wanted, t.spent, t.left) (exactly-append (b ∷ bs) (n - length bs) (credit s) (total s))

module _ (chunk : ℕ → ℕ) where
  Exact-some :
      (fuel n : ℕ) (r : Reader) (b : ℕ) (bs : Bytes) (s : Reader)
      → Takes r s (b ∷ bs)
      → suc (length bs) ≤ suc n
      → Exact (n - length bs) s (read_exact chunk fuel (n - length bs) s)
      → Exact (suc n) r (
          let next = read_exact chunk fuel (n - length bs) s in
          continue next.0 (λ more t. (ok (b ∷ (bs ++ more)), t)) next.1)
  Exact-some fuel n r b bs s t m x =
      elim (Result-cases (read_exact chunk fuel (n - length bs) s).0) [
        | inl (more, e) ↦ rw e (record {
          taken = (b ∷ bs) ++ x.taken;
          takes = Takes-append (b ∷ bs) x.taken t x.takes;
          gives = sym (
              exactly_more n r b bs s t m
              ∙ ap (λ q. q >>= (λ z. ok (b ∷ (bs ++ z)))) (sym x.gives ∙ e));
        })
        | inr (error, e) ↦ rw e (record {
          taken = (b ∷ bs) ++ x.taken;
          takes = Takes-append (b ∷ bs) x.taken t x.takes;
          gives = sym (
              exactly_more n r b bs s t m
              ∙ ap (λ q. q >>= (λ z. ok (b ∷ (bs ++ z)))) (sym x.gives ∙ e));
        })
      ]

  read_exact_none :
      (fuel n : ℕ) (r : Reader)
      → ((read chunk (suc n) r).0 ≡ ok []) ⊎ ((read chunk (suc n) r).0 ≡ err io_error)
      → read_exact chunk (suc fuel) (suc n) r ≡ (err io_error, (read chunk (suc n) r).1)
  unfolding read_exact
  read_exact_none fuel n r h = ground arith

  read_exact_some :
      (fuel n : ℕ) (r : Reader) (b : ℕ) (bs : Bytes)
      → (read chunk (suc n) r).0 ≡ ok (b ∷ bs)
      → read_exact chunk (suc fuel) (suc n) r ≡ (
          let next = read_exact chunk fuel (n - length bs) (read chunk (suc n) r).1 in
          continue next.0 (λ more t. (ok (b ∷ (bs ++ more)), t)) next.1)
  unfolding read_exact
  read_exact_some fuel n r b bs h = ground arith

  pub read_exact-Exact :
      (fuel n : ℕ) (r : Reader) → n ≤ fuel → Exact n r (read_exact chunk fuel n r)
  read_exact-Exact fuel zero r h =
      unfold read_exact exactly in record { taken = []; takes = Takes-nothing r; gives = refl }
  read_exact-Exact zero (suc n) r h = elim h [ ]
  read_exact-Exact (suc fuel) (suc n) r h = elim (read-Served chunk n r) [
    | nothing e same none_there ↦
        subst (Exact (suc n) r) (sym (read_exact_none fuel n r (inl e)))
          (Exact-none n r _ same none_there)
    | failed e same none_there ↦
        subst (Exact (suc n) r) (sym (read_exact_none fuel n r (inr e)))
          (Exact-none n r _ same (inr none_there))
    | some_bytes b bs e t m ↦
        let s = (read chunk (suc n) r).1 in
        subst (Exact (suc n) r) (sym (read_exact_some fuel n r b bs e))
          (Exact-some fuel n r b bs s t m (read_exact-Exact fuel (n - length bs) s (omega arith)))
  ]

-- All of the bytes asked for, with others behind them.
pub exactly_all :
    (xs : Bytes) (c : ℕ) (ys : Bytes) → exactly (length xs) (length xs + c) (xs ++ ys) ≡ ok xs
exactly_all xs c ys =
    let e : length xs ≡ length xs + 0 = omega arith in
    subst (λ k. exactly k (length xs + c) (xs ++ ys) ≡ ok xs) (sym e)
      (exactly-append xs 0 c ys ∙ (unfold exactly in ap ok (append-nil xs)))
