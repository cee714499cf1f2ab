-- ===== src/Rpc/Transport/RoundTrip.antt =====
-- vtok_rpc/src/transport.rs: what is sent is received, whichever the pieces in which it comes.
use mathlib.Core.List.{append_assoc}
use aws_nitro_enclaves_acm.Prelude.{
  ℕ, suc, ◌+◌, ◌-◌, ◌≤◌, ◌≡◌, refl, ◌∙◌, sym, ap, Bool, true, some, List, [], ◌∷◌, ◌++◌, Bytes,
  codes, arith, All, bytes_eq, bytes_eq_refl, Result, ok, length, length-append,
}
use aws_nitro_enclaves_acm.Rpc.Reader.{TransportError, Stream, Reader, read_exact}
use aws_nitro_enclaves_acm.Rpc.Reader.Reference.{total, credit}
use aws_nitro_enclaves_acm.Rpc.Reader.Exact.{exactly_all, read_exact-Exact}
use aws_nitro_enclaves_acm.Rpc.Line.{crlf, trim, words, print_usize}
use aws_nitro_enclaves_acm.Rpc.Line.Print.{length-print_usize-le}
use aws_nitro_enclaves_acm.Rpc.Line.Trim.{IsGraphic, words_line, trim-crlf}
use aws_nitro_enclaves_acm.Rpc.Transport.{
  request_line, status_line, send, all, request_head, response_head, Codec, max_hdr_len,
  max_body_len, open_reader, header, read_message, recv,
}
use aws_nitro_enclaves_acm.Rpc.Transport.Headers.{At, is_line, read_line_feed}
use aws_nitro_enclaves_acm.Rpc.Transport.Header.{
  type_line, length_line, header_text, header_text_lem, read_headers_lem,
}

abbrev request_start : Bytes → Bytes
request_start url = codes "POST " ++ (url ++ (codes " HTTP/1.1" ++ 13 ∷ []))

abbrev response_start : Bytes
response_start = codes "200 OK" ++ 13 ∷ []

-- A first line that is accepted.
pub record Opens (first : List (List ℕ) → Result TransportError (Unit {0})) (line : Bytes)
    : Type 0 where
  pub plain : is_line line ≡ true
  pub short : length line ≤ 900
  pub accepted : first (words (trim (line ++ b'\n' ∷ []))) ≡ ok tt

read_exact_body :
    (chunk : ℕ → ℕ) (r : Reader) (body rest : Bytes)
    → total r ≡ body ++ rest
    → r.limit ≡ length body
    → (read_exact chunk (length body) (length body) r).0 ≡ ok body
read_exact_body chunk r body rest t l =
    let x = read_exact-Exact chunk (length body) (length body) r (omega arith) in
    let c : credit r ≡ length body + length r.buffered = omega arith in
    x.gives ∙ rw (c, t) (exactly_all body (length r.buffered) rest)

open_reader-At :
    (s : Stream) (line body rest : Bytes)
    → length (print_usize (length body)) ≤ 5
    → length line ≤ 900
    → s.incoming ≡ line ++ b'\n' ∷ (header body ++ (body ++ rest))
    → At
        (open_reader s)
        (line ++ b'\n' ∷ header_text (print_usize (length body)) (body ++ rest))
        (length line
          + suc (
              length type_line
              + suc (
                  length (length_line (print_usize (length body)))
                  + suc (
                      1
                      + suc (
                          max_hdr_len
                          - (length line
                              + length type_line
                              + length (length_line (print_usize (length body)))
                              + 5))))))
        s.closed
open_reader-At s line body rest digits short i = record {
  unread = i ∙ ap (λ t. line ++ b'\n' ∷ t) (header_text_lem body (body ++ rest));
  left = omega (arith, length-append (print_usize (length body)) (13 ∷ []));
  same = refl;
}

module _ (chunk : ℕ → ℕ) {A : Type 0} (codec : Codec A)
    (first : List (List ℕ) → Result TransportError (Unit {0})) where
  pub read_message_lem :
      (r : Reader) (line body rest : Bytes) (m : ℕ) (closed : Bool) (a : A)
      → Opens first line
      → length body ≤ max_body_len
      → At r
          (line ++ b'\n' ∷ header_text (print_usize (length body)) (body ++ rest))
          (length line
            + suc (
                length type_line
                + suc (length (length_line (print_usize (length body))) + suc (1 + suc m))))
          closed
      → codec.from_slice body ≡ some a
      → (read_message chunk codec first r).0 ≡ ok a
  unfolding read_message
  read_message_lem r line body rest m closed a o b at d =
      let (r1, line1, at1) = read_line_feed chunk r line _ _ closed at o.plain in
      let (r2, headers, at2) =
        read_headers_lem chunk r1 (length body) m (body ++ rest) closed b at1 in
      let got =
        read_exact_body chunk (record r2 { limit = length body }) body rest at2.unread refl in
      rw line1 (rw o.accepted (rw headers (rw got (rw d refl))))

  pub recv_lem :
      (s : Stream) (line body rest : Bytes) (a : A)
      → Opens first line
      → length body ≤ max_body_len
      → s.incoming ≡ line ++ b'\n' ∷ (header body ++ (body ++ rest))
      → codec.from_slice body ≡ some a
      → (recv chunk codec first s).0 ≡ ok a
  unfolding recv
  recv_lem s line body rest a o b i d =
      read_message_lem (open_reader s) line body rest
        (max_hdr_len
          - (length line + length type_line + length (length_line (print_usize (length body))) + 5))
        s.closed a o b
        (open_reader-At s line body rest
          (length-print_usize-le 5 (length body) (omega arith) (omega arith)) o.short i)
        d

request_words :
    (x : ℕ) (xs : Bytes)
    → All IsGraphic (x ∷ xs)
    → trim (request_start (x ∷ xs) ++ b'\n' ∷ []) ≡ codes "POST " ++ ((x ∷ xs) ++ codes " HTTP/1.1")
request_words x xs h =
    ap (λ t. trim (codes "POST " ++ (x ∷ t)))
      (append_assoc xs (codes " HTTP/1.1" ++ 13 ∷ []) (b'\n' ∷ [])
        ∙ sym (append_assoc xs (codes " HTTP/1.") (b'1' ∷ crlf)))
    ∙ trim-crlf b'P' (codes "OST " ++ ((x ∷ xs) ++ codes " HTTP/1.")) b'1' (omega arith)
        (omega arith)
    ∙ ap (λ t. codes "POST " ++ (x ∷ t)) (append_assoc xs (codes " HTTP/1.") (b'1' ∷ []))

is_line-url : (xs ys : Bytes) → All IsGraphic xs → is_line ys ≡ true → is_line (xs ++ ys) ≡ true
is_line-url [] ys h k = k
is_line-url (x ∷ xs) ys h k =
    let (graphic, others) = h in ground (arith, is_line-url xs ys others k)

Opens-request :
    (x : ℕ) (xs : Bytes)
    → All IsGraphic (x ∷ xs)
    → length (x ∷ xs) ≤ 800
    → Opens (request_line (x ∷ xs)) (request_start (x ∷ xs))
unfolding request_line bytes_eq
Opens-request x xs h l = record {
  plain = is_line-url (x ∷ xs) (codes " HTTP/1.1" ++ 13 ∷ []) h refl;
  short = omega (arith, length-append xs (codes " HTTP/1.1" ++ 13 ∷ []));
  accepted = rw (request_words x xs h) (rw (words_line x xs h) (rw (bytes_eq_refl (x ∷ xs)) refl));
}

Opens-response : Opens status_line response_start
unfolding status_line bytes_eq
Opens-response = record { plain = refl; short = omega arith; accepted = unfold trim words in refl }

-- What is written whole reads back.
abbrev pub RoundTrips : {A : Type 0} → Codec A → Type 0
RoundTrips {A} codec =
    (a : A) (bytes : Bytes) → codec.to_vec a ≡ some bytes → codec.from_slice bytes ≡ some a

-- The message can be sent: its JSON text fits the largest body.
pub record Sendable {A : Type 0} (codec : Codec A) (a : A) : Type 0 where
  pub body : Bytes
  pub text : codec.to_vec a ≡ some body
  pub fits : length body ≤ max_body_len

send_lem :
    {A : Type 0} (codec : Codec A) (head : Bytes → Bytes) (a : A) (body : Bytes)
    → codec.to_vec a ≡ some body
    → send codec head all all a [] ≡ (ok tt, head body ++ body)
unfolding send
send_lem codec head a body e = rw e refl

request_bytes :
    (url body rest : Bytes)
    → (request_head url body ++ body) ++ rest
      ≡ request_start url ++ b'\n' ∷ (header body ++ (body ++ rest))
request_bytes url body rest =
    ap (λ t. codes "POST " ++ t)
      (append_assoc (url ++ (codes " HTTP/1.1" ++ (crlf ++ header body))) body rest
        ∙ append_assoc url (codes " HTTP/1.1" ++ (crlf ++ header body)) (body ++ rest)
        ∙ sym (
            append_assoc url (codes " HTTP/1.1" ++ 13 ∷ [])
              (b'\n' ∷ (header body ++ (body ++ rest)))))

response_bytes :
    (body rest : Bytes)
    → (response_head body ++ body) ++ rest
      ≡ response_start ++ b'\n' ∷ (header body ++ (body ++ rest))
response_bytes body rest =
    ap (λ t. codes "200 OK" ++ (crlf ++ t)) (append_assoc (header body) body rest)

module _ (chunk : ℕ → ℕ) {A : Type 0} (codec : Codec A) (rt : RoundTrips codec) (a : A)
    (can : Sendable codec a) (rest : Bytes) (closed : Bool) where
  -- A request whose body is no longer than 64 KiB and whose two writes are complete is received as it
  -- was sent, whichever the pieces in which its bytes arrive, and whatever follows them. The URL has
  -- at most 800 bytes, all graphic, and the JSON library reads back what it writes.
  pub recv_request-send_request :
      (x : ℕ) (xs : Bytes)
      → All IsGraphic (x ∷ xs)
      → length (x ∷ xs) ≤ 800
      → ((send codec (request_head (x ∷ xs)) all all a []).0 ≡ ok tt)
        × ((recv chunk codec (request_line (x ∷ xs)) (record {
          incoming = (send codec (request_head (x ∷ xs)) all all a []).1 ++ rest;
          closed = closed;
        })).0
            ≡ ok a)
  recv_request-send_request x xs h l =
      let e = send_lem codec (request_head (x ∷ xs)) a can.body can.text in
      rw e (
        refl,
        recv_lem chunk codec (request_line (x ∷ xs)) _ (request_start (x ∷ xs)) can.body rest a
            (Opens-request x xs h l) can.fits (request_bytes (x ∷ xs) can.body rest)
            (rt a can.body can.text),
      )

  -- A response likewise.
  pub recv_response-send_response :
      (recv chunk codec status_line (record {
        incoming = (send codec response_head all all a []).1 ++ rest;
        closed = closed;
      })).0
      ≡ ok a
  recv_response-send_response =
      let e = send_lem codec response_head a can.body can.text in
      rw e (
        recv_lem chunk codec status_line _ response_start can.body rest a Opens-response can.fits
          (response_bytes can.body rest) (rt a can.body can.text))
