-- ===== src/Agent/Env.antt =====
-- What the agent of vtok_agent asks of its host: commands, files, time, the accounts, the enclave,
-- and the JSON library. Each call takes the world as it is and leaves another.
use aws_nitro_enclaves_acm.Prelude.{ℕ, Bool, Option, List, Bytes, Result}
use aws_nitro_enclaves_acm.Rpc.Schema.{ApiRequest, ApiResponse, PrivateKey}
use aws_nitro_enclaves_acm.Rpc.Reader.{TransportError}

-- enclave.rs: the errors of a request.
pub data EnclaveError : Type 0 where
  rpc_connect_error : EnclaveError
  rpc_transport_error : TransportError → EnclaveError

-- imds.rs. The lock of the cache is never poisoned, since no code panics that holds it.
pub data ImdsError : Type 0 where
  io_error utf8_error parse_error : ImdsError
  process_error : Option ℕ → Bytes → ImdsError

-- mngtok.rs: a database of ACM.
pub record KeyMaterialDb : Type 0 where
  pub certificate : Bytes
  pub certificate_chain : Bytes
  pub encrypted_private_key : Bytes
  pub encryption_method : Bytes

-- imds.rs: the fields of SecurityCredentials that are read.
pub record SecurityCredentials : Type 0 where
  pub access_key_id : Bytes
  pub secret_access_key : Bytes
  pub token : Bytes

pub record ImdsCache : Type 0 where
  pub partition : Bytes
  pub region : Bytes
  pub role_arn : Bytes
  pub creds : SecurityCredentials

-- What a command that ran left.
pub record Output : Type 0 where
  pub success : Bool
  pub code : Option ℕ
  pub stdout : Bytes
  pub stderr : Bytes

pub data FileError : Type 0 where
  io nix : FileError

pub record Env : Type 1 where
  pub World : Type 0
  -- Instant::now, in milliseconds.
  pub now : World → ℕ
  pub command : Bytes → List Bytes → World → Option Output × World
  -- interruptible_sleep: whether it was ended by a request to exit.
  pub sleep : ℕ → World → Bool × World
  -- P11neEnclave::rpc
  pub rpc : ApiRequest → World → Result EnclaveError ApiResponse × World
  -- The whole file: none where it cannot be opened, or a read of it fails.
  pub read_file : Bytes → World → Option Bytes × World
  -- `BufReader::lines` with its errors skipped: none where the file cannot be opened, and otherwise
  -- the bytes up to its end, without the part of a line that was read before a read failed. A file
  -- of which every read fails, so that the loop does not end, is not covered.
  pub read_by_lines : Bytes → World → Option Bytes × World
  -- The file is created or truncated, and the parts are written in order.
  pub write_file : Bytes → List Bytes → World → Bool × World
  -- The same, with an owner, a group and the mode 0o440.
  pub write_config :
      Bytes → Option ℕ → Option ℕ → Bytes → World → Result FileError (Unit {0}) × World
  pub create_dirs_for_file : Bytes → World → Bool × World
  pub exists : Bytes → World → Bool
  -- std::thread::sleep, and kill with SIGWINCH.
  pub wait : ℕ → World → World
  pub signal : Bytes → World → World
  -- kill with no signal: whether the process of the enclave is there.
  pub enclave_alive : World → Bool
  -- gdata::EXIT_CONDITION
  pub exiting : World → Bool
  -- str::parse::<i32> on the text of a number: whether it is one.
  pub is_i32 : Bytes → Bool
  -- An error, no such account, or its number.
  pub user_id : Bytes → World → Option (Option ℕ)
  pub group_id : Bytes → World → Option (Option ℕ)
  pub random : ℕ → World → Option Bytes × World
  pub db_from_json : Bytes → Option KeyMaterialDb
  pub file_db_from_json : Bytes → Option (List PrivateKey)
  pub instance_profile_arn_from_json : Bytes → Option Bytes
  pub role_arn_from_json : Bytes → Option Bytes
  pub creds_from_json : Bytes → Option SecurityCredentials

-- The host, with the cache of instance metadata that the process keeps.
pub record Host (E : Env) : Type 0 where
  pub cache : Option ImdsCache
  pub world : E.World
