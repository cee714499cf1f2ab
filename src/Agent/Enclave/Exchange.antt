-- ===== src/Agent/Enclave/Exchange.antt =====
-- vtok_agent/src/enclave.rs, `rpc`, over vtok_rpc/src/transport.rs, to a server that runs
-- vtok_srv/src/worker.rs.
use aws_nitro_enclaves_acm.Prelude.{
  ℕ, ◌≡◌, refl, ap, subst, Bool, true, false, [], ◌++◌, Bytes, codes, if◌then◌else◌, Result, ok,
  err, map_err, arith,
}
use mathlib.Core.List.{append-nil}
use aws_nitro_enclaves_acm.Common.Config.{Json, Io}
use aws_nitro_enclaves_acm.Rpc.Schema.{ApiRequest, ApiResponse}
use aws_nitro_enclaves_acm.Rpc.Reader.{Stream}
use aws_nitro_enclaves_acm.Rpc.Transport.{
  Codec, Written, all, request_line, status_line, request_head, response_head, send, recv,
}
use aws_nitro_enclaves_acm.Rpc.Transport.RoundTrip.{
  RoundTrips, Sendable, recv_request-send_request, recv_response-send_response,
}
use aws_nitro_enclaves_acm.Srv.Kms.{Kms}
use aws_nitro_enclaves_acm.Srv.Worker.{handle}
use aws_nitro_enclaves_acm.Agent.Env.{EnclaveError, rpc_connect_error, rpc_transport_error}

-- schema::API_URL
abbrev pub api_url : Bytes
api_url = codes "/rpc/v1"

-- A connection: whether it is made, how the two writes end, what the peer sends for the bytes that
-- it gets, and in which pieces that arrives.
pub record Link : Type 0 where
  pub connected : Bool
  pub head_written : Written
  pub body_written : Written
  pub peer : Bytes → Stream
  pub chunk : ℕ → ℕ

no_rest : (P : Bytes → Type 0) (bytes : Bytes) → P (bytes ++ []) → P bytes
no_rest P bytes h = subst P (append-nil bytes) h

module _ (requests : Codec ApiRequest) (responses : Codec ApiResponse) where
  -- P11neEnclave::rpc
  unfoldable pub rpc : Link → ApiRequest → Result EnclaveError ApiResponse
  rpc link request =
      let sent =
        send requests (request_head api_url) link.head_written link.body_written request [] in
      if link.connected
      then elim sent.0 [
        | err e ↦ err (rpc_transport_error e)
        | ok _ ↦
            map_err rpc_transport_error (recv link.chunk responses status_line (link.peer sent.1)).0
      ]
      else err rpc_connect_error

  module _ (j : Json) (k : Kms) (io : Io) (text : j.Text) where
    -- Worker::run on the bytes of a client: what it sends back.
    unfoldable pub answer : (ℕ → ℕ) → Bytes → Bytes
    answer chunk bytes =
        elim (recv chunk requests (request_line api_url)
          (record { incoming = bytes; closed = false })).0 [
            | err e ↦ []
            | ok request ↦
                (send responses response_head all all (handle j k io request text).0 []).1
          ]

    answer-handle :
        (chunk : ℕ → ℕ) (bytes : Bytes) (request : ApiRequest)
        → (recv chunk requests
            (request_line api_url)
            (record { incoming = bytes; closed = false })).0
          ≡ ok request
        → answer chunk bytes
          ≡ (send responses response_head all all (handle j k io request text).0 []).1
    unfolding answer
    answer-handle chunk bytes request e = rw (e, answer) refl

    -- A request that is sent whole over a connection to the server, whose response is sent whole, is
    -- answered with what the server's handler answers, if both messages fit: the connection and
    -- the pieces in which the bytes come and go change nothing.
    pub rpc-handle :
        (chunk chunk' : ℕ → ℕ) (request : ApiRequest)
        → RoundTrips requests
        → RoundTrips responses
        → Sendable requests request
        → Sendable responses (handle j k io request text).0
        → rpc
            (record {
              connected = true;
              head_written = all;
              body_written = all;
              peer = λ bytes. record { incoming = answer chunk' bytes; closed = true };
              chunk = chunk;
            })
            request
          ≡ ok (handle j k io request text).0
    unfolding rpc
    rpc-handle chunk chunk' request rt rt' can can' =
        let there =
          recv_request-send_request chunk' requests rt request can [] false b'/' (codes "rpc/v1")
            (omega arith) (omega arith) in
        let back =
          recv_response-send_response chunk responses rt' (handle j k io request text).0 can' []
            true in
        let answered = answer-handle chunk' _ request (
          no_rest
            (λ bytes.
              (recv chunk' requests (request_line api_url)
                (record { incoming = bytes; closed = false })).0
              ≡ ok request)
            _ there.1) in
        rw there.0 (
          rw answered (
            ap (map_err (λ e. rpc_transport_error e)) (
              no_rest
                (λ bytes.
                  (recv chunk responses status_line (record { incoming = bytes; closed = true })).0
                  ≡ ok (handle j k io request text).0)
                _ back)))
