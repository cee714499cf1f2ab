-- ===== src/Rpc/Reader/Lines.antt =====
-- vtok_rpc/src/transport.rs, `BufRead::read_line`: the line that it gives is that of the bytes that the
-- peer sent, whichever the pieces in which they come.
use aws_nitro_enclaves_acm.Prelude.{
  ℕ, zero, suc, ◌+◌, ◌<◌, ◌≡◌, refl, sym, subst, Bool, true, false, [], ◌∷◌, Bytes, ◌==◌,
  if◌then◌else◌, Result, ok, err, ◌>>=◌, length, arith, ◌⊎◌, inl, inr, Bool-cases, Result-cases,
  ==_iff,
}
use aws_nitro_enclaves_acm.Rpc.Reader.{
  TransportError, io_error, Reader, fill_buf, read_until, cons_byte,
}
use aws_nitro_enclaves_acm.Prelude.Exec.{continue}
use aws_nitro_enclaves_acm.Rpc.Reader.Reference
use aws_nitro_enclaves_acm.Rpc.Reader.Reference.{
  Filled, Takes-byte, Takes-append, Takes-nothing, total, credit, Takes, fill_buf-Filled,
}

-- The bytes up to the first line feed, of those that may be read.
unfoldable pub first_line : ℕ → Bytes → Bool → Result TransportError Bytes
first_line zero bytes closed = ok []
first_line (suc n) [] closed = if closed then ok [] else err io_error
first_line (suc n) (b ∷ bs) closed =
    let rest = first_line n bs closed in
    if b == b'\n' then ok (b ∷ []) else rest >>= (λ line. ok (b ∷ line))

-- What was read, where reading `r` gave `m`.
pub record Line (r : Reader) (m : Result TransportError Bytes × Reader) : Type 0 where
  pub taken : Bytes
  pub takes : Takes r m.1 taken
  pub gives : m.0 ≡ first_line (credit r) (total r) r.closed
  pub whole : (line : Bytes) → m.0 ≡ ok line → line ≡ taken

first_line_nothing :
    (n : ℕ) (bytes : Bytes) (closed : Bool)
    → (n ≡ 0) ⊎ ((bytes ≡ []) × (closed ≡ true))
    → first_line n bytes closed ≡ ok []
unfolding first_line
first_line_nothing zero bytes closed h = refl
first_line_nothing (suc n) bytes closed h = ground arith

first_line_failed :
    (n : ℕ) (bytes : Bytes) (closed : Bool)
    → 0 < n
    → bytes ≡ []
    → closed ≡ false
    → first_line n bytes closed ≡ err io_error
unfolding first_line
first_line_failed zero bytes closed p h c = elim p [ ]
first_line_failed (suc n) bytes closed p h c = ground arith

Line-nothing :
    (r : Reader) → (credit r ≡ 0) ⊎ ((total r ≡ []) × (r.closed ≡ true)) → Line r (ok [], r)
Line-nothing r h = record {
  taken = [];
  takes = Takes-nothing r;
  gives = sym (first_line_nothing (credit r) (total r) r.closed h);
  whole = λ line e. ground arith;
}

pub first_line-byte :
    (n : ℕ) (bytes : Bytes) (closed : Bool) (b : ℕ)
    → first_line (1 + n) (b ∷ bytes) closed
      ≡ (if b == b'\n' then ok (b ∷ []) else first_line n bytes closed >>= (λ line. ok (b ∷ line)))
unfolding first_line
first_line-byte n bytes closed b = ground arith

module _ (chunk : ℕ → ℕ) where
  abbrev after_byte : ℕ → ℕ → Reader → Result TransportError Bytes × Reader
  after_byte fuel b s =
      let rest =
        continue (read_until chunk fuel s).0 (cons_byte chunk b) (read_until chunk fuel s).1 in
      if b == b'\n' then (ok (b ∷ []), s) else rest

  read_until_byte :
      (fuel : ℕ) (r s : Reader) (b : ℕ) (bs : Bytes)
      → fill_buf chunk r ≡ (ok tt, s)
      → s.buffered ≡ b ∷ bs
      → read_until chunk (suc fuel) r ≡ after_byte fuel b (record s { buffered = bs })
  unfolding read_until
  read_until_byte fuel r s b bs f e = ground arith

  read_until_nothing :
      (fuel : ℕ) (r : Reader)
      → fill_buf chunk r ≡ (ok tt, r)
      → r.buffered ≡ []
      → read_until chunk (suc fuel) r ≡ (ok [], r)
  unfolding read_until
  read_until_nothing fuel r f e = ground arith

  read_until_failed :
      (fuel : ℕ) (r : Reader)
      → fill_buf chunk r ≡ (err io_error, r)
      → read_until chunk (suc fuel) r ≡ (err io_error, r)
  unfolding read_until
  read_until_failed fuel r f = ground arith

  Line-feed : (r s : Reader) (b : ℕ) → Takes r s (b ∷ []) → b ≡ b'\n' → Line r (ok (b ∷ []), s)
  unfolding first_line
  Line-feed r s b t e = record {
    taken = b ∷ [];
    takes = t;
    gives = ground (arith, first_line-byte (credit s) (total s) r.closed b);
    whole = λ line h. ground arith;
  }

  Line-other_byte :
      (fuel : ℕ) (r s : Reader) (b : ℕ)
      → Takes r s (b ∷ [])
      → (b == b'\n') ≡ false
      → Line s (read_until chunk fuel s)
      → Line r
          (continue (read_until chunk fuel s).0 (cons_byte chunk b) (read_until chunk fuel s).1)
  Line-other_byte fuel r s b t e l = elim (Result-cases (read_until chunk fuel s).0) [
    | inl (line, read) ↦ rw read (record {
      taken = b ∷ l.taken;
      takes = Takes-append (b ∷ []) l.taken t l.takes;
      gives = ground (arith, first_line-byte (credit s) (total s) r.closed b);
      whole = λ line' h. ground (arith, l.whole line read);
    })
    | inr (error, read) ↦ rw read (record {
      taken = b ∷ l.taken;
      takes = Takes-append (b ∷ []) l.taken t l.takes;
      gives = ground (arith, first_line-byte (credit s) (total s) r.closed b);
      whole = λ line' h. absurd (ground arith);
    })
  ]

  Line-after_byte :
      (fuel : ℕ) (r s : Reader) (b : ℕ)
      → Takes r s (b ∷ [])
      → Line s (read_until chunk fuel s)
      → Line r (after_byte fuel b s)
  Line-after_byte fuel r s b t l = elim (Bool-cases (b == b'\n')) [
    | inl ends ↦ rw ends (Line-feed r s b t ((==_iff b b'\n').0 ends))
    | inr goes_on ↦ rw goes_on (Line-other_byte fuel r s b t goes_on l)
  ]

  pub read_until-Line :
      (fuel : ℕ) (r : Reader) → length (total r) < fuel → Line r (read_until chunk fuel r)
  read_until-Line zero r h = elim h [ ]
  read_until-Line (suc fuel) r h = elim (fill_buf-Filled chunk r) [
    | Reference.ready b bs s filled there step ↦
        subst (Line r) (sym (read_until_byte fuel r s b bs filled there)) (
          Line-after_byte fuel r (record s { buffered = bs }) b (Takes-byte r s b bs step there)
            (read_until-Line fuel (record s { buffered = bs })
              (ground (arith, Takes-byte r s b bs step there))))
    | Reference.at_limit filled empty spent ↦
        subst (Line r) (sym (read_until_nothing fuel r filled empty))
          (Line-nothing r (inl (ground arith)))
    | Reference.at_end filled empty over shut left ↦
        subst (Line r) (sym (read_until_nothing fuel r filled empty))
          (Line-nothing r (inr (ground arith, shut)))
    | Reference.failed filled empty over open_yet left ↦
        subst (Line r) (sym (read_until_failed fuel r filled)) (record {
          taken = [];
          takes = Takes-nothing r;
          gives = sym (
              first_line_failed (credit r) (total r) r.closed (ground arith) (ground arith)
                open_yet);
          whole = λ line e. absurd (ground arith);
        })
  ]
