-- ===== src/Srv/Server.antt =====
-- vtok_srv/src/main.rs and `Worker::run`: the server's loop over its clients. What the listener and
-- the transport do is an argument of each step.
pub mod Sound
pub mod Replies
pub mod Stored
use aws_nitro_enclaves_acm.Prelude.{
  Bool, true, false, List, [], ◌∷◌, Result, ok, err, map_err, if◌then◌else◌,
}
use aws_nitro_enclaves_acm.Common.Config.{Json, Io, init_new}
use aws_nitro_enclaves_acm.Common.Config
use aws_nitro_enclaves_acm.Rpc.Schema.{ApiRequest, ApiResponse}
use aws_nitro_enclaves_acm.Rpc.Reader.{TransportError}
use aws_nitro_enclaves_acm.Srv.Kms.{Kms}
use aws_nitro_enclaves_acm.Srv.Worker.{handle}

-- One turn of the server's loop: whether the connection is accepted, whether its timeouts are set,
-- what is received, and how sending the response ends.
pub record Client : Type 0 where
  pub accepted : Bool
  pub timeouts : Bool
  pub received : Result TransportError ApiRequest
  pub sent : ApiResponse → Result TransportError (Unit {0})
  pub io : Io

pub data Error : Type 0 where
  config_error : Config.Error → Error
  io_error : Error
  worker_error : TransportError → Error

module _ (j : Json) (k : Kms) where
  -- Worker::run
  unfoldable pub run : Client → j.Text → Result Error (Unit {0}) × j.Text
  run client text = elim client.received [
    | err e ↦ (err (worker_error e), text)
    | ok request ↦
        let r = handle j k client.io request text in (map_err worker_error (client.sent r.0), r.1)
  ]

  unfoldable pub handle_client : Client → j.Text → Result Error (Unit {0}) × j.Text
  unfolding run
  handle_client client text =
      if client.accepted
      then (if client.timeouts then run client text else (err io_error, text))
      else (err io_error, text)

  -- The loop drops the error of a client and goes on.
  unfoldable pub serve : j.Text → List Client → j.Text
  unfolding handle_client
  serve text [] = text
  serve text (client ∷ clients) = serve (handle_client client text).1 clients

  -- The server stops where the new config file cannot be written.
  unfoldable pub run_server : Io → List Client → j.Text → Result Error (Unit {0}) × j.Text
  unfolding serve
  run_server io clients text = elim (init_new j io text).0 [
    | err e ↦ (err (config_error e), (init_new j io text).1)
    | ok _ ↦ (ok tt, serve (init_new j io text).1 clients)
  ]
