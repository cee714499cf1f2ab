-- ===== src/Rpc/Transport/Headers.antt =====
-- vtok_rpc/src/transport.rs: how the lines of a message are read off its bytes.
use mathlib.Core.List.{append_assoc, append_cancel_left}
use native.Mathlib.Nat.{suc-add}
use aws_nitro_enclaves_acm.Prelude.{
  ℕ, suc, ◌+◌, ◌≡◌, refl, ◌∙◌, sym, ap, Bool, true, false, not, ◌&&◌, Option, List, [], ◌∷◌, ◌++◌,
  Bytes, ltb, ◌==◌, arith, All, ok, length, ◌>>=◌, length-append,
}
use aws_nitro_enclaves_acm.Rpc.Reader.{Reader, read_until, read_line, enough}
use aws_nitro_enclaves_acm.Rpc.Reader.Reference.{total, credit}
use aws_nitro_enclaves_acm.Rpc.Reader.Lines.{first_line, read_until-Line}
use aws_nitro_enclaves_acm.Rpc.Line.{trim}
use aws_nitro_enclaves_acm.Rpc.Line.Trim.{IsAscii, decode_ascii}
use aws_nitro_enclaves_acm.Rpc.Transport.{header_line, header_lines}

-- The reader `s` has `rest` before it, with `n` bytes of credit.
pub record At (s : Reader) (rest : Bytes) (n : ℕ) (closed : Bool) : Type 0 where
  pub unread : total s ≡ rest
  pub left : credit s ≡ n
  pub same : s.closed ≡ closed

abbrev pub NoFeed : ℕ → Type 0
NoFeed b = (b == b'\n') ≡ false

-- ASCII text with no line feed in it.
abbrev pub is_line : Bytes → Bool
is_line [] = true
is_line (b ∷ bs) = ltb b 128 && not (b == b'\n') && is_line bs

is_line-NoFeed : (xs : Bytes) → is_line xs ≡ true → All NoFeed xs
is_line-NoFeed [] h = tt
is_line-NoFeed (x ∷ xs) h = (ground arith, is_line-NoFeed xs (ground arith))

is_line-IsAscii : (xs : Bytes) → is_line xs ≡ true → All IsAscii (xs ++ b'\n' ∷ [])
is_line-IsAscii [] h = omega arith
is_line-IsAscii (x ∷ xs) h = (ground arith, is_line-IsAscii xs (ground arith))

first_line_feed :
    (xs : Bytes) (n : ℕ) (rest : Bytes) (closed : Bool)
    → All NoFeed xs
    → first_line (length xs + suc n) (xs ++ b'\n' ∷ rest) closed ≡ ok (xs ++ b'\n' ∷ [])
unfolding first_line
first_line_feed [] n rest closed h = ground arith
first_line_feed (x ∷ xs) n rest closed h =
    rw suc-add
      (rw h.0 (ap (λ m. m >>= (λ line. ok (x ∷ line))) (first_line_feed xs n rest closed h.1)))

module _ (chunk : ℕ → ℕ) where
  -- A line that ends in a line feed is read whole.
  pub read_line_feed :
      (r : Reader) (xs : Bytes) (n : ℕ) (rest : Bytes) (closed : Bool)
      → At r (xs ++ b'\n' ∷ rest) (length xs + suc n) closed
      → is_line xs ≡ true
      → (s : Reader) × (read_line chunk r ≡ (ok (xs ++ b'\n' ∷ []), s)) × At s rest n closed
  unfolding read_line
  read_line_feed r xs n rest closed at h =
      let l =
        read_until-Line chunk (enough r) r (omega (arith, length-append r.buffered r.incoming)) in
      let line = xs ++ b'\n' ∷ [] in
      let got : (read_until chunk (enough r) r).0 ≡ ok line =
        l.gives
        ∙ rw at.left
            (rw at.unread (rw at.same (first_line_feed xs n rest closed (is_line-NoFeed xs h)))) in
      let after = (read_until chunk (enough r) r).1 in
      let same = l.whole line got in
      (
        (read_until chunk (enough r) r).1,
        rw got (rw (decode_ascii line (is_line-IsAscii xs h)) refl),
        record {
          unread = append_cancel_left line _ _ (
              sym (l.takes.left ∙ ap (λ p. p ++ total after) (sym same))
              ∙ at.unread
              ∙ sym (append_assoc xs (b'\n' ∷ []) rest));
          left =
              omega (arith, l.takes.spent, at.left, ap length same, length-append xs (b'\n' ∷ []));
          same = l.takes.same ∙ at.same;
        },
      )

  pub header_lines_step :
      (fuel : ℕ) (cl cl' : Option ℕ) (c : ℕ) (cs ln : List ℕ) (r s : Reader)
      → read_line chunk r ≡ (ok ln, s)
      → trim ln ≡ c ∷ cs
      → header_line (c ∷ cs) cl ≡ ok cl'
      → header_lines chunk (suc fuel) cl r ≡ header_lines chunk fuel cl' s
  unfolding header_lines
  header_lines_step fuel cl cl' c cs ln r s e t h = ground arith

  pub header_lines_end :
      (fuel : ℕ) (cl : Option ℕ) (ln : List ℕ) (r s : Reader)
      → read_line chunk r ≡ (ok ln, s)
      → trim ln ≡ []
      → header_lines chunk (suc fuel) cl r ≡ (ok cl, s)
  unfolding header_lines
  header_lines_end fuel cl ln r s e t = ground arith
