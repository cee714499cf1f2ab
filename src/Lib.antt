-- ===== src/Lib.antt =====
-- Verification of the AWS Nitro Enclaves vToken programs: the RPC server that provisions tokens in
-- an enclave, the PKCS#11 provider that offers them to applications, and the agent on the parent
-- instance that keeps the tokens of the enclave current. They are Rust programs of the workspace
-- under src/. The server (vtok_srv) and the provider (vtok_p11) share one file, the device config:
-- the server writes it on each request that changes a token, and the provider reads it when it starts
-- and again when its modification time has changed. The agent (vtok_agent) sends the server its
-- requests over the transport of vtok_rpc: it adds the tokens that the enclave does not know, updates
-- those whose source changed, and refreshes the others before they expire.
--
-- Files, and the code that they are about:
-- - Prelude: shared names. Prelude/Assoc is HashMap as a list of entries, Prelude/Results is Result
--   with ?, Prelude/Exec is code that changes a state and may fail, Prelude/Text is byte strings.
-- - Common: src/vtok_common/src. Common/Defs has the constants of lib.rs, Common/Config the config
--   file of config.rs. The state is the text of the file; serde_json is the parameter Json.
-- - Rpc: src/vtok_rpc/src. Rpc/Schema and Rpc/Validators are about api.rs. Rpc/Transport has
--   HttpTransport of transport.rs (recv_request and recv_response are recv, send_request and
--   send_response are send), with serde_json as the parameter Codec. Rpc/Reader is the buffered reader
--   that it reads from, and Rpc/Line the text operations on a line. The state is the bytes that are
--   buffered, the limit, and those that are still to come, in pieces that are a parameter.
-- - Srv: src/vtok_srv/src. Srv/Worker has the handlers of worker.rs (add_token is add, refresh_token
--   is refresh, remove_token is remove, update_token is update, describe_token is describe_one,
--   describe_device is describe, execute is handle), Srv/Kms the decryption of keys, over KMS and
--   base64 as the parameter Kms, Srv/Slots the searches over slots, and Srv/Server the loop of
--   main.rs. Srv/Edit says what a request means to do to a device, and Srv/Registry says it of the
--   map from labels to tokens.
-- - P11: src/vtok_p11/src. P11/Ck has the constants of pkcs11.rs, P11/Mechanism backend/mech.rs,
--   P11/Error the errors of lib.rs, P11/OpCtx the states of an operation, P11/Attr, P11/RawAttr and
--   P11/Object the attributes and objects of backend/db/object.rs and util/ckraw.rs, P11/Db and
--   P11/Db/Load backend/db/mod.rs, P11/Crypto the keys and contexts of crypto, over libcrypto as the parameters
--   Evp and X509Lib, P11/Session backend/session.rs, P11/Token backend/token.rs, P11/Device backend/device.rs
--   and backend/slot.rs, and P11/Api the C functions of api.
-- - Agent: src/vtok_agent/src. Agent/Config has config.rs and the constants of main.rs, Agent/Imds
--   imds.rs, Agent/Enclave enclave.rs (the methods are call_add and so on; Agent/Enclave/Exchange has
--   rpc, joined to the server), Agent/Source, Agent/Target and Agent/Token agent/mngtok.rs with
--   nginx.rs and httpd.rs (ManagedToken::new is new_token, DbSource::new new_source, DbSource::update
--   update_source), Agent/Restart and Agent/Sync agent/mod.rs (Agent::sync is sync_agent, a round of
--   Agent::run is run_round). Agent/Env is what the agent asks of the system: the clock, commands,
--   files, accounts, JSON, and the exchange with the enclave. Agent/Later says that time goes on.
-- - Srv/Examples, P11/Examples and Agent/Examples: the theorems at concrete inputs.
--
-- How code is modelled: a function that changes a state takes it and returns the new one, on failure
-- too, so that what was written before an error stays written. Every system call of a request, the
-- clock, the config file's contents and what libcrypto and KMS answer are arguments. Bytes and machine
-- integers are natural numbers: a session handle wraps around at 2^64, and theorems that need it
-- assume that it does not, and so does the sum of the index and the count of an enumeration, where a
-- panic is none. A HashMap is a list with the entry of an inserted key first, so the order
-- in which Rust visits its entries is not modelled; no operation depends on it. A String that is read
-- from bytes is the list of its characters.
--
-- Most loops are over a list. The loops over the lines of a message and the bytes of a line have as
-- fuel the bytes that can still come, and one: each round takes a byte. So does the loop over the
-- certificates of a text, with the bytes of the text, and P11/Crypto/Chain says that they are enough.
-- The loop that sends a request again has the configured number of rounds.
--
-- Not modelled: locks and their poisoning, the sockets of src/vtok_rpc/src/proto.rs, the agent's start
-- of the enclave and of its helper processes, signal handlers and logs, the command line of
-- src/vtok_tool and src/vtok_init, and the C functions of src/vtok_p11/src/api that list slots,
-- mechanisms and objects. Tokens and devices are proved correct for whatever
-- loads the objects of a token, which is their argument DbLoader; P11/Db/Load is the one of the code.
mod Prelude
pub mod Common
pub mod Rpc
pub mod Srv
pub mod P11
pub mod Agent
