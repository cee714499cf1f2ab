-- ===== src/Agent/Examples/Wire.antt =====
-- The transport at concrete inputs, with messages of one byte, over streams that are read byte by byte.
use aws_nitro_enclaves_acm.Prelude.{
  ℕ, ◌+◌, ◌≤◌, ◌≡◌, refl, true, false, Option, none, some, List, [], ◌∷◌, ◌++◌, Bytes, codes,
  replicate, ok, err, arith, length, bytes_eq,
}
use aws_nitro_enclaves_acm.Common.Config.{Json, Io, Device, whole}
use aws_nitro_enclaves_acm.Rpc.Schema.{
  ApiRequest, ApiResponse, ApiOk, ApiError, DeviceDescription, nothing, device_description,
  token_description, add_token, describe_device, describe_token, refresh_token, remove_token,
  update_token, PrivateKey, token_not_found,
}
use aws_nitro_enclaves_acm.Rpc.Reader.{
  Reader, Stream, enough, io_error, read_line, read_until, fill_buf, read_exact, read,
}
use aws_nitro_enclaves_acm.Rpc.Line.{print_usize, decode, words, trim, split_colon, parse_usize}
use aws_nitro_enclaves_acm.Rpc.Transport.{
  Codec, all, first, send, recv, request_head, request_line, header_line, header_lines, open_reader,
  max_hdr_len, max_body_len,
}
use aws_nitro_enclaves_acm.Rpc.Transport.RoundTrip.{RoundTrips, Sendable, recv_request-send_request}
use aws_nitro_enclaves_acm.Rpc.Transport.Limits.{header_lines-enough, recv_bounded}
use aws_nitro_enclaves_acm.Srv.Kms.{Kms}
use aws_nitro_enclaves_acm.Rpc.Schema
use aws_nitro_enclaves_acm.Rpc.Validators.{validate_args}
use aws_nitro_enclaves_acm.Common.Config.{load}
use aws_nitro_enclaves_acm.Srv.Worker.{handle, describe_slots}
use aws_nitro_enclaves_acm.Agent.Enclave.Exchange.{rpc, answer, rpc-handle}

abbrev encode_request : ApiRequest → Option Bytes
encode_request describe_device = some (codes "D")
encode_request _ = none

abbrev decode_request : Bytes → Option ApiRequest
decode_request [] = none
decode_request (b ∷ bs) = some describe_device

abbrev requests : Codec ApiRequest
requests = record { to_vec = encode_request; from_slice = decode_request }

requests-RoundTrips : RoundTrips requests
requests-RoundTrips (add_token token) bytes h = cc
requests-RoundTrips describe_device bytes h = ground arith
requests-RoundTrips (describe_token label pin) bytes h = cc
requests-RoundTrips (refresh_token label pin key) bytes h = cc
requests-RoundTrips (remove_token label pin) bytes h = cc
requests-RoundTrips (update_token label pin token) bytes h = cc

describe-Sendable : Sendable requests describe_device
describe-Sendable = record { body = codes "D"; text = refl; fits = omega arith }

slow : ℕ → ℕ
slow n = 1

recv_request-send_request_example :
    ((send requests (request_head (codes "/rpc/v1")) all all describe_device []).0 ≡ ok tt)
    × ((recv slow requests (request_line (codes "/rpc/v1")) (record {
      incoming =
          (send requests (request_head (codes "/rpc/v1")) all all describe_device []).1
          ++ codes "more";
      closed = true;
    })).0
        ≡ ok describe_device)
recv_request-send_request_example =
    recv_request-send_request slow requests requests-RoundTrips describe_device describe-Sendable
      (codes "more") true b'/' (codes "rpc/v1") (omega arith) (omega arith)

-- A body that is cut short is an error, once the peer has closed the stream.
short_write :
    (recv slow requests (request_line (codes "/rpc/v1")) (record {
      incoming =
          (send requests (request_head (codes "/rpc/v1")) all (first 0) describe_device []).1;
      closed = true;
    })).0
    ≡ err io_error
unfolding send recv slow request_line read_line read_until fill_buf print_usize decode words trim
    bytes_eq header_lines header_line split_colon parse_usize read_exact read
short_write = refl

abbrev two_headers : Reader
two_headers =
    open_reader (record { incoming = codes "Content-Length: 5\r\n\r\nhello"; closed = true })

header_lines-enough_example :
    header_lines slow 1000 none two_headers
    ≡ header_lines slow (enough two_headers) none two_headers
header_lines-enough_example = header_lines-enough slow 1000 none two_headers (omega arith)

abbrev long_stream : Stream
long_stream = record { incoming = replicate 5000 b'x'; closed = false }

recv_bounded_example :
    length long_stream.incoming
    ≤ length (recv slow requests (request_line (codes "/rpc/v1")) long_stream).1.incoming
      + (max_hdr_len + max_body_len)
recv_bounded_example = recv_bounded slow requests (request_line (codes "/rpc/v1")) long_stream

abbrev encode_description : DeviceDescription → List Schema.TokenDescription → Option Bytes
encode_description d [] = some (d.free_slot_count ∷ [])
encode_description d (t ∷ ts) = none

abbrev encode_response : ApiResponse → Option Bytes
encode_response (ok (device_description d)) = encode_description d d.tokens
encode_response _ = none

abbrev decode_response : Bytes → Option ApiResponse
decode_response [] = none
decode_response (b ∷ bs) =
    some (ok (device_description (record { free_slot_count = b; tokens = [] })))

abbrev responses : Codec ApiResponse
responses = record { to_vec = encode_response; from_slice = decode_response }

responses-RoundTrips : RoundTrips responses
responses-RoundTrips (ok (device_description d)) bytes h = ground arith
responses-RoundTrips (ok nothing) bytes h = cc
responses-RoundTrips (ok (token_description d)) bytes h = cc
responses-RoundTrips (err e) bytes h = cc

abbrev wire_memory : Json
wire_memory = record {
  Text = Option Device;
  to_json = λ d. some d;
  from_json = λ t. t;
  prefix = λ n t. none;
}

abbrev wire_kms : Kms
wire_kms = record { kms_decrypt = λ r a s t c. some c; decode = λ b. some b }

abbrev wire_io : Io
wire_io = record {
  opened = true;
  load_clock = λ i. 10;
  call_clock = λ i. 10;
  sought = true;
  truncated = true;
  written = whole;
  flushed = true;
}

abbrev wire_text : Option Device
wire_text = some (record { slots = replicate 128 none })

described :
    (handle wire_memory wire_kms wire_io describe_device wire_text).0
    ≡ ok (device_description (record { free_slot_count = 128; tokens = [] }))
unfolding handle validate_args load describe_slots
described = refl

description-Sendable :
    Sendable responses (handle wire_memory wire_kms wire_io describe_device wire_text).0
description-Sendable = record { body = 128 ∷ []; text = rw described refl; fits = omega arith }

rpc-handle_example :
    rpc requests responses
      (record {
        connected = true;
        head_written = all;
        body_written = all;
        peer = λ bytes. record {
          incoming = answer requests responses wire_memory wire_kms wire_io wire_text slow bytes;
          closed = true;
        };
        chunk = slow;
      })
      describe_device
    ≡ ok (handle wire_memory wire_kms wire_io describe_device wire_text).0
rpc-handle_example =
    rpc-handle requests responses wire_memory wire_kms wire_io wire_text slow slow describe_device
      requests-RoundTrips responses-RoundTrips describe-Sendable description-Sendable
