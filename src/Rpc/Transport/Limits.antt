-- ===== src/Rpc/Transport/Limits.antt =====
-- vtok_rpc/src/transport.rs: how much of the stream a message takes, and that its loops end.
use aws_nitro_enclaves_acm.Prelude.{
  ℕ, zero, suc, ◌+◌, ◌≤◌, ◌<◌, ◌≡◌, refl, ◌∙◌, sym, ap, Option, none, some, List, [], ◌∷◌, Bytes,
  arith, Result, ok, err, length, length-append, inl, inr, Result-cases,
}
use aws_nitro_enclaves_acm.Rpc.Reader.{
  TransportError, Stream, Reader, read_line, read_until, read_exact, enough,
}
use aws_nitro_enclaves_acm.Rpc.Reader.Reference.{List-cases, total, Takes}
use aws_nitro_enclaves_acm.Rpc.Reader.Lines.{read_until-Line}
use aws_nitro_enclaves_acm.Rpc.Reader.Exact.{read_exact-Exact}
use aws_nitro_enclaves_acm.Rpc.Line.{decode, trim, words}
use aws_nitro_enclaves_acm.Rpc.Transport.{
  Codec, max_hdr_len, max_body_len, open_reader, header_line, header_lines, check_length,
  read_headers, read_message, recv,
}

-- What went from the stream is what went from the limit.
abbrev Drains : Reader → Reader → Type 0
Drains r s = length r.incoming + s.limit ≡ length s.incoming + r.limit

Takes-Drains : (r s : Reader) (xs : Bytes) → Takes r s xs → Drains r s
Takes-Drains r s xs t = omega (
  arith,
  ap length t.left,
  t.spent,
  length-append xs (total s),
  length-append r.buffered r.incoming,
  length-append s.buffered s.incoming,
)

decode_nothing : decode [] ≡ some []
unfolding decode
decode_nothing = refl

trim_nothing : trim [] ≡ []
unfolding trim
trim_nothing = refl

check_length-le : (cl : Option ℕ) (n : ℕ) → check_length cl ≡ ok n → n ≤ max_body_len
check_length-le none n h = cc
check_length-le (some m) n h = ground arith

error-ne-ok :
    (error : TransportError) (n : ℕ) → ◌≡◌ {A = Result TransportError ℕ} (err error) (ok n) → ⊥
error-ne-ok error n h = cc

module _ (chunk : ℕ → ℕ) where
  read_line-Drains : (r : Reader) → Drains r (read_line chunk r).1
  unfolding read_line
  read_line-Drains r =
      let l =
        read_until-Line chunk (enough r) r (omega (arith, length-append r.buffered r.incoming)) in
      elim (Result-cases (read_until chunk (enough r) r).0) [
        | inl (bytes, e) ↦ rw e (Takes-Drains r _ l.taken l.takes)
        | inr (error, e) ↦ rw e (Takes-Drains r _ l.taken l.takes)
      ]

  -- What one round of the loop does, whatever fuel is left.
  data Round (cl : Option ℕ) (r : Reader) : Type 0 where
    stops :
        (m : Result TransportError (Option ℕ) × Reader)
        → m.1 ≡ (read_line chunk r).1
        → ((fuel : ℕ) → header_lines chunk (suc fuel) cl r ≡ m)
        → Round cl r
    goes_on :
        (cl' : Option ℕ)
        → length (total (read_line chunk r).1) < length (total r)
        → ((fuel : ℕ)
            → header_lines chunk (suc fuel) cl r
              ≡ header_lines chunk fuel cl' (read_line chunk r).1)
        → Round cl r

  read_line-shrinks :
      (r : Reader) (c : ℕ) (cs ln : List ℕ)
      → (read_line chunk r).0 ≡ ok ln
      → trim ln ≡ c ∷ cs
      → length (total (read_line chunk r).1) < length (total r)
  unfolding read_line
  read_line-shrinks r c cs ln e t =
      let l =
        read_until-Line chunk (enough r) r (omega (arith, length-append r.buffered r.incoming)) in
      elim (Result-cases (read_until chunk (enough r) r).0) [
        | inr (error, f) ↦ absurd (ground arith)
        | inl (bytes, f) ↦ elim (List-cases bytes) [
          | inl empty ↦ absurd (ground (arith, decode_nothing, trim_nothing))
          | inr (b, bs, there) ↦ rw f (
              omega (
                arith,
                ap length l.takes.left,
                ap length (sym there ∙ l.whole bytes f),
                length-append l.taken (total (read_until chunk (enough r) r).1),
              ))
        ]
      ]

  header_lines-Round : (cl : Option ℕ) (r : Reader) → Round cl r
  unfolding header_lines
  header_lines-Round cl r = elim (Result-cases (read_line chunk r).0) [
    | inr (error, e) ↦ stops (err error, (read_line chunk r).1) refl (λ fuel. ground arith)
    | inl (ln, e) ↦ elim (List-cases (trim ln)) [
      | inl blank ↦ stops (ok cl, (read_line chunk r).1) refl (λ fuel. ground arith)
      | inr (c, cs, t) ↦ elim (Result-cases (header_line (c ∷ cs) cl)) [
        | inr (error, h) ↦ stops (err error, (read_line chunk r).1) refl (λ fuel. ground arith)
        | inl (cl', h) ↦ goes_on cl' (read_line-shrinks r c cs ln e t) (λ fuel. ground arith)
      ]
    ]
  ]

  header_lines-Drains :
      (fuel : ℕ) (cl : Option ℕ) (r : Reader) → Drains r (header_lines chunk fuel cl r).1
  header_lines-Drains zero cl r = unfold header_lines in refl
  header_lines-Drains (suc fuel) cl r = elim (header_lines-Round cl r) [
    | stops m at e ↦ rw (e fuel) (rw at (read_line-Drains r))
    | goes_on cl' shrinks e ↦
        rw (e fuel)
          (omega (arith, read_line-Drains r, header_lines-Drains fuel cl' (read_line chunk r).1))
  ]

  header_lines_more :
      (fuel more : ℕ) (cl : Option ℕ) (r : Reader)
      → length (total r) < fuel
      → fuel ≤ more
      → header_lines chunk more cl r ≡ header_lines chunk fuel cl r
  header_lines_more zero more cl r h k = elim h [ ]
  header_lines_more (suc fuel) zero cl r h k = elim k [ ]
  header_lines_more (suc fuel) (suc more) cl r h k = elim (header_lines-Round cl r) [
    | stops m at e ↦ e more ∙ sym (e fuel)
    | goes_on cl' shrinks e ↦
        e more
        ∙ header_lines_more fuel more cl' (read_line chunk r).1 (omega arith) (omega arith)
        ∙ sym (e fuel)
  ]

  -- Reading the headers ends by itself, after at most one line for each byte that is there and one
  -- more: more rounds than that change nothing, whatever the peer sent.
  pub header_lines-enough :
      (more : ℕ) (cl : Option ℕ) (r : Reader)
      → enough r ≤ more
      → header_lines chunk more cl r ≡ header_lines chunk (enough r) cl r
  header_lines-enough more cl r h =
      header_lines_more (enough r) more cl r (omega (arith, length-append r.buffered r.incoming)) h

  read_headers-Drains : (r : Reader) → Drains r (read_headers chunk r).1
  unfolding read_headers
  read_headers-Drains r = elim (Result-cases (header_lines chunk (enough r) none r).0) [
    | inl (cl, e) ↦ rw e (header_lines-Drains (enough r) none r)
    | inr (error, e) ↦ rw e (header_lines-Drains (enough r) none r)
  ]

  read_headers-le : (r : Reader) (n : ℕ) → (read_headers chunk r).0 ≡ ok n → n ≤ max_body_len
  unfolding read_headers
  read_headers-le r n h = elim (Result-cases (header_lines chunk (enough r) none r).0) [
    | inl (cl, e) ↦ check_length-le cl n (rw e at h)
    | inr (error, e) ↦ absurd (error-ne-ok error n (rw e at h))
  ]

-- At most `n` bytes went from the stream.
abbrev Within : ℕ → Reader → Reader → Type 0
Within n r s = length r.incoming ≤ length s.incoming + n

-- The first line, the headers and a body of `n` bytes, each taking what it may.
drained :
    (r s t b u : Reader) (n : ℕ)
    → b ≡ record t { limit = n }
    → Drains r s
    → Drains s t
    → Drains b u
    → n ≤ max_body_len
    → Within (r.limit + max_body_len) r u
drained r s t b u n e h k l m = ground arith

module _ (chunk : ℕ → ℕ) {A : Type 0} (codec : Codec A)
    (first : List (List ℕ) → Result TransportError (Unit {0})) where
  read_exact-Drains : (n : ℕ) (r : Reader) → Drains r (read_exact chunk n n r).1
  read_exact-Drains n r =
      let x = read_exact-Exact chunk n n r (omega arith) in
      Takes-Drains r (read_exact chunk n n r).1 x.taken x.takes

  read_message-Within :
      (r : Reader) → Within (r.limit + max_body_len) r (read_message chunk codec first r).1
  unfolding read_message
  read_message-Within r = elim (Result-cases (read_line chunk r).0) [
    | inr (error, e) ↦ rw e (omega (arith, read_line-Drains chunk r))
    | inl (ln, e) ↦ rw e (elim (Result-cases (first (words (trim ln)))) [
      | inr (error, f) ↦ rw f (omega (arith, read_line-Drains chunk r))
      | inl (_, f) ↦ rw f (elim (Result-cases (read_headers chunk (read_line chunk r).1).0) [
        | inr (error, g) ↦ rw g (
            omega
              (arith, read_line-Drains chunk r, read_headers-Drains chunk (read_line chunk r).1))
        | inl (n, g) ↦
            rw g
              let s = (read_headers chunk (read_line chunk r).1).1 in
                let b = record s { limit = n } in
                elim (Result-cases (read_exact chunk n n b).0) [
                  | inl (body, k) ↦ rw k (
                      drained r (read_line chunk r).1 s b (read_exact chunk n n b).1 n refl
                        (read_line-Drains chunk r) (read_headers-Drains chunk (read_line chunk r).1)
                        (read_exact-Drains n b) (read_headers-le chunk (read_line chunk r).1 n g))
                  | inr (error, k) ↦ rw k (
                      drained r (read_line chunk r).1 s b (read_exact chunk n n b).1 n refl
                        (read_line-Drains chunk r) (read_headers-Drains chunk (read_line chunk r).1)
                        (read_exact-Drains n b) (read_headers-le chunk (read_line chunk r).1 n g))
                ]
      ])
    ])
  ]

  -- Whatever the peer sends, and however receiving ends, a message takes no more bytes from the
  -- stream than the largest head and the largest body have together.
  pub recv_bounded :
      (s : Stream)
      → length s.incoming
        ≤ length (recv chunk codec first s).1.incoming + (max_hdr_len + max_body_len)
  unfolding recv
  recv_bounded s = read_message-Within (open_reader s)
