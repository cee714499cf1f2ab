-- ===== src/Rpc/Transport.antt =====
-- vtok_rpc/src/transport.rs: requests and responses as HTTP messages over a byte stream.
pub mod Headers
pub mod Limits
pub mod RoundTrip
pub mod Header
use aws_nitro_enclaves_acm.Prelude.{
  ℕ, zero, suc, ◌+◌, ◌-◌, ◌*◌, ◌≡◌, Bool, true, false, Option, none, some, List, [], ◌∷◌, ◌++◌,
  ◌&&◌, Bytes, codes, ltb, leb, ◌==◌, bytes_eq, if◌then◌else◌, Result, ok, err, ok_or, guard, take,
  drop, length,
}
use aws_nitro_enclaves_acm.Prelude.Exec.{Exec, pure, lift, continue, ◌>>=◌, ◌>>◌}
use aws_nitro_enclaves_acm.Rpc.Line.{
  decode, crlf, trim, words, split_colon, parse_usize, print_usize,
}
use aws_nitro_enclaves_acm.Rpc.Reader.{
  TransportError, bad_url, io_error, msg_len, parse_error, serde_error, Stream, Reader, ReadExec,
  read_line, read_exact, enough,
}

-- serde_json, for one type of message.
pub record Codec (A : Type 0) : Type 0 where
  pub to_vec : A → Option Bytes
  pub from_slice : Bytes → Option A

abbrev pub max_hdr_len : ℕ
max_hdr_len = 1 * 1024

abbrev pub max_body_len : ℕ
max_body_len = 64 * 1024

unfoldable pub request_line : Bytes → List (List ℕ) → Result TransportError (Unit {0})
request_line url (method ∷ target ∷ version ∷ ws) =
    if bytes_eq method (codes "POST") && bytes_eq version (codes "HTTP/1.1")
    then guard (bytes_eq target url) bad_url
    else err parse_error
request_line url ws = err parse_error

unfoldable pub status_line : List (List ℕ) → Result TransportError (Unit {0})
status_line (status ∷ phrase ∷ ws) =
    guard (bytes_eq status (codes "200") && bytes_eq phrase (codes "OK")) parse_error
status_line ws = err parse_error

-- One header, by its name and what follows the first `: `.
unfoldable pub header_entry : List ℕ → Option (List ℕ) → Option ℕ → Result TransportError (Option ℕ)
header_entry name none content_length = err parse_error
header_entry name (some value) content_length =
    if bytes_eq name (codes "Content-Length")
    then elim (parse_usize value) [ none ↦ err parse_error | some n ↦ ok (some n) ]
    else if bytes_eq name (codes "Content-Type") && bytes_eq value (codes "application/json")
    then ok content_length
    else err parse_error

-- One line of the headers, which is not empty.
unfoldable pub header_line : List ℕ → Option ℕ → Result TransportError (Option ℕ)
unfolding header_entry
header_line ln content_length = header_entry (split_colon ln).0 (split_colon ln).1 content_length

abbrev pub check_length : Option ℕ → Result TransportError ℕ
check_length none = err parse_error
check_length (some n) = if ltb max_body_len n then err msg_len else ok n

abbrev pub set_limit : ℕ → ReadExec (Unit {0})
set_limit n r = (ok tt, record r { limit = n })

abbrev pub open_reader : Stream → Reader
open_reader stream = record { buffered = []; limit = max_hdr_len; stream = stream }

module _ (chunk : ℕ → ℕ) where
  -- The loop over the lines. Each round but the last takes a byte.
  unfoldable pub header_lines : ℕ → Option ℕ → ReadExec (Option ℕ)
  header_lines zero content_length r = (ok content_length, r)
  header_lines (suc fuel) content_length r = elim (read_line chunk r).0 [
    | err e ↦ (err e, (read_line chunk r).1)
    | ok ln ↦ elim (trim ln) [
      | [] ↦ (ok content_length, (read_line chunk r).1)
      | c ∷ cs ↦
          continue (header_line (c ∷ cs) content_length) (header_lines fuel) (read_line chunk r).1
    ]
  ]

  unfoldable pub read_headers : ReadExec ℕ
  read_headers = do
    content_length ← (λ r. header_lines (enough r) none r)
    lift (check_length content_length)

  module _ {A : Type 0} (codec : Codec A)
      (first : List (List ℕ) → Result TransportError (Unit {0})) where
    -- recv_request and recv_response, which differ in their first line.
    unfoldable pub read_message : ReadExec A
    unfolding read_headers
    read_message = do
      ln ← read_line chunk
      lift (first (words (trim ln)))
      n ← read_headers
      set_limit n
      body ← read_exact chunk n n
      lift (ok_or (codec.from_slice body) serde_error)

    -- The reader is dropped with what it has buffered.
    unfoldable pub recv : Stream → Result TransportError A × Stream
    unfolding read_message
    recv s = ((read_message (open_reader s)).0, (read_message (open_reader s)).1.stream)

-- How a call of `write` ends: with all bytes taken, or the first ones only, or with an error.
pub data Written : Type 0 where
  all failed : Written
  first : ℕ → Written

-- `Write::write`, after the bytes that are sent. Its count is ignored.
unfoldable pub write : Written → Bytes → Exec Bytes TransportError (Unit {0})
write all bytes sent = (ok tt, sent ++ bytes)
write (first n) bytes sent = (ok tt, sent ++ take n bytes)
write failed bytes sent = (err io_error, sent)

abbrev pub header : Bytes → Bytes
header body =
    codes "Content-Type: application/json"
    ++ (crlf ++ (codes "Content-Length: " ++ (print_usize (length body) ++ (crlf ++ crlf))))

abbrev pub request_head : Bytes → Bytes → Bytes
request_head url body = codes "POST " ++ (url ++ (codes " HTTP/1.1" ++ (crlf ++ header body)))

abbrev pub response_head : Bytes → Bytes
response_head body = codes "200 OK" ++ (crlf ++ header body)

module _ {A : Type 0} (codec : Codec A) (head : Bytes → Bytes) where
  -- send_request and send_response, which differ in their first line.
  unfoldable pub send : Written → Written → A → Exec Bytes TransportError (Unit {0})
  unfolding write
  send head_written body_written message = do
    body ← lift (ok_or (codec.to_vec message) serde_error)
    write head_written (head body)
    write body_written body
