-- ===== src/Rpc/Transport/Header.antt =====
-- vtok_rpc/src/transport.rs: `read_headers` on the headers that are sent.
use mathlib.Core.List.{append_assoc}
use aws_nitro_enclaves_acm.Prelude.{
  ℕ, suc, ◌+◌, ◌-◌, ◌%◌, ◌^◌, ◌≤◌, ◌<◌, ◌≡◌, refl, ◌∙◌, sym, ap, Bool, true, Option, none, some, [],
  ◌∷◌, ◌++◌, Bytes, codes, arith, bytes_eq, ok, length, length-append,
}
use aws_nitro_enclaves_acm.Rpc.Reader.{Reader, read_line, enough}
use aws_nitro_enclaves_acm.Rpc.Reader.Reference.{total}
use aws_nitro_enclaves_acm.Rpc.Line.{crlf, trim, split_colon, print_usize}
use aws_nitro_enclaves_acm.Rpc.Line.Print.{
  AllDigits, print_usize-AllDigits, print_usize-last, parse-print_usize,
}
use aws_nitro_enclaves_acm.Rpc.Line.Trim.{trim-crlf, split_colon_length}
use aws_nitro_enclaves_acm.Rpc.Transport.{
  header, header_entry, header_line, header_lines, read_headers, max_body_len,
}
use aws_nitro_enclaves_acm.Rpc.Transport.Headers.{
  At, is_line, read_line_feed, header_lines_step, header_lines_end,
}

abbrev pub type_line : Bytes
type_line = codes "Content-Type: application/json" ++ 13 ∷ []

abbrev pub length_line : Bytes → Bytes
length_line ds = codes "Content-Length: " ++ (ds ++ 13 ∷ [])

-- The headers with a length, and what follows them, line by line.
abbrev pub header_text : Bytes → Bytes → Bytes
header_text ds rest = type_line ++ b'\n' ∷ (length_line ds ++ b'\n' ∷ ((13 ∷ []) ++ b'\n' ∷ rest))

pub header_text_lem :
    (body rest : Bytes) → header body ++ rest ≡ header_text (print_usize (length body)) rest
header_text_lem body rest =
    ap (λ t. type_line ++ b'\n' ∷ (codes "Content-Length: " ++ t))
      (append_assoc (print_usize (length body)) (crlf ++ crlf) rest
        ∙ sym (append_assoc (print_usize (length body)) (13 ∷ []) _))

is_line-digits : (ds : Bytes) → AllDigits ds → is_line (ds ++ 13 ∷ []) ≡ true
is_line-digits [] h = refl
is_line-digits (d ∷ ds) h = let (digit, others) = h in ground (arith, is_line-digits ds others)

type_header : (cl : Option ℕ) → header_line (codes "Content-Type: application/json") cl ≡ ok cl
unfolding header_line split_colon bytes_eq
type_header cl = refl

entry_length :
    (cl : Option ℕ) (n : ℕ)
    → n < 2 ^ 64
    → header_entry (codes "Content-Length") (some (print_usize n)) cl ≡ ok (some n)
unfolding header_entry bytes_eq
entry_length cl n h = rw (parse-print_usize n h) refl

length_header :
    (cl : Option ℕ) (n : ℕ)
    → n < 2 ^ 64
    → header_line (codes "Content-Length: " ++ print_usize n) cl ≡ ok (some n)
unfolding header_line
length_header cl n h =
    rw (split_colon_length (print_usize n) (print_usize-AllDigits n), header_line)
      (entry_length cl n h)

trim_length :
    (n : ℕ)
    → trim (length_line (print_usize n) ++ b'\n' ∷ []) ≡ codes "Content-Length: " ++ print_usize n
trim_length n =
    let (front, e) = print_usize-last n in
    rw e (
      ap (λ t. trim (codes "Content-Length: " ++ t))
        (append_assoc (front ++ (b'0' + n % 10) ∷ []) (13 ∷ []) (b'\n' ∷ [])
          ∙ append_assoc front ((b'0' + n % 10) ∷ []) crlf)
      ∙ trim-crlf b'C' (codes "ontent-Length: " ++ front) (b'0' + n % 10) (omega arith)
          (omega arith))

trim_type : trim (type_line ++ b'\n' ∷ []) ≡ codes "Content-Type: application/json"
unfolding trim
trim_type = refl

trim_blank : trim ((13 ∷ []) ++ b'\n' ∷ []) ≡ []
unfolding trim
trim_blank = refl

enough_three :
    (r : Reader) → 2 ≤ length (total r) → enough r ≡ suc (suc (suc (length (total r) - 2)))
enough_three r h = omega (arith, length-append r.buffered r.incoming)

module _ (chunk : ℕ → ℕ) where
  three_lines :
      (fuel n : ℕ) (r r1 r2 r3 : Reader)
      → n < 2 ^ 64
      → read_line chunk r ≡ (ok (type_line ++ b'\n' ∷ []), r1)
      → read_line chunk r1 ≡ (ok (length_line (print_usize n) ++ b'\n' ∷ []), r2)
      → read_line chunk r2 ≡ (ok ((13 ∷ []) ++ b'\n' ∷ []), r3)
      → header_lines chunk (suc (suc (suc fuel))) none r ≡ (ok (some n), r3)
  three_lines fuel n r r1 r2 r3 h e1 e2 e3 =
      header_lines_step chunk (suc (suc fuel)) none none b'C' _ _ r r1 e1 trim_type
        (type_header none)
      ∙ header_lines_step chunk (suc fuel) none (some n) b'C' _ _ r1 r2 e2 (trim_length n)
          (length_header none n h)
      ∙ header_lines_end chunk fuel (some n) _ r2 r3 e3 trim_blank

  read_headers-enough :
      (n fuel : ℕ) (r s : Reader)
      → enough r ≡ fuel
      → n ≤ max_body_len
      → header_lines chunk fuel none r ≡ (ok (some n), s)
      → read_headers chunk r ≡ (ok n, s)
  unfolding read_headers
  read_headers-enough n fuel r s e h g = rw e (rw g (ground arith))

  pub read_headers_lem :
      (r : Reader) (n m : ℕ) (rest : Bytes) (closed : Bool)
      → n ≤ max_body_len
      → At r
          (header_text (print_usize n) rest)
          (length type_line + suc (length (length_line (print_usize n)) + suc (1 + suc m)))
          closed
      → (s : Reader) × (read_headers chunk r ≡ (ok n, s)) × At s rest m closed
  read_headers_lem r n m rest closed h at =
      let (r1, line1, at1) = read_line_feed chunk r type_line _ _ closed at refl in
      let (r2, line2, at2) =
        read_line_feed chunk r1 (length_line (print_usize n)) _ _ closed at1
          (is_line-digits (print_usize n) (print_usize-AllDigits n)) in
      let (r3, line3, at3) = read_line_feed chunk r2 (13 ∷ []) m rest closed at2 refl in
      (
        r3,
        read_headers-enough n _ r r3 (enough_three r (ground (arith, ap length at.unread))) h
            (three_lines _ n r r1 r2 r3 (omega arith) line1 line2 line3),
        at3,
      )
