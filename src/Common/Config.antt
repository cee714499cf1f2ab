-- ===== src/Common/Config.antt =====
-- vtok_common/src/config.rs: the device description that the RPC server writes and the PKCS#11
-- provider reads. The file is the state; the serializer and the outcome of each system call are
-- arguments.
pub mod Load
pub mod Save
use aws_nitro_enclaves_acm.Prelude.{
  ℕ, suc, ◌-◌, ◌≡◌, Bool, true, false, Option, none, some, List, [], ◌∷◌, Bytes, leb, ltb, is_some,
  if◌then◌else◌, Result, ok, err, ok_or, replicate, guard,
}
use aws_nitro_enclaves_acm.Prelude.Exec.{Exec, pure, lift, continue, ◌>>=◌, ◌>>◌}
use aws_nitro_enclaves_acm.Common.Defs.{device_max_slots}

pub data Error : Type 0 where
  io_error read_only serde_error : Error

pub record PrivateKey : Type 0 where
  pub pem : Bytes
  pub encrypted_pem_b64 : Bytes
  pub id : ℕ
  pub label : Bytes
  pub cert_pem : Option Bytes

pub record Token : Type 0 where
  pub label : Bytes
  pub private_keys : List PrivateKey
  pub pin : Bytes
  pub expiry_ts : ℕ

abbrev pub Slots : Type 0
Slots = List (Option Token)

pub record Device : Type 0 where
  pub slots : Slots

-- `file` is true where the config holds its locked file, that is, after `load_rw`.
pub record Config : Type 0 where
  pub device : Device
  pub open device use *
  pub file : Bool

-- serde_json over the contents of a file, and what is left when only a prefix was written.
pub record Json : Type 1 where
  pub Text : Type 0
  pub to_json : Device → Text
  pub from_json : Text → Option Device
  pub prefix : ℕ → Text → Text

-- What is written whole reads back.
abbrev pub RoundTrips : Json → Type 0
RoundTrips j = (d : Device) → j.from_json (j.to_json d) ≡ some d

-- The serializer writes everything, or the first bytes only. Its buffer is flushed when it is
-- dropped, where an error is lost: a short write is reported, or not.
pub data Write : Type 0 where
  whole : Write
  short : ℕ → Bool → Write

-- The outcome of each system call of one request. `load_clock i` is the clock when slot i is loaded,
-- and `call_clock` is the clock as the request goes on: at slot i in a loop over the slots, and
-- `call_clock 0` where the request reads the clock once.
pub record Io : Type 0 where
  pub opened : Bool
  pub load_clock : ℕ → ℕ
  pub call_clock : ℕ → ℕ
  pub sought : Bool
  pub truncated : Bool
  pub written : Write
  pub flushed : Bool

-- `u64::checked_sub`
abbrev pub checked_sub : ℕ → ℕ → Option ℕ
checked_sub a b = if leb b a then some (a - b) else none

abbrev positive : Option ℕ → Option ℕ
positive none = none
positive (some t) = if ltb 0 t then some t else none

abbrev time_left : ℕ → Option Token → Option ℕ
time_left now none = none
time_left now (some tok) = checked_sub tok.expiry_ts now

unfoldable pub expire : ℕ → Option Token → Option Token
expire now slot = if is_some (positive (time_left now slot)) then slot else none

unfoldable pub expire_slots : (ℕ → ℕ) → Slots → Slots
unfolding expire
expire_slots clock [] = []
expire_slots clock (slot ∷ slots) = expire (clock 0) slot ∷ expire_slots (λ i. clock (suc i)) slots

module _ (j : Json) where
  unfoldable pub load_device : (ℕ → ℕ) → j.Text → Result Error Device
  unfolding expire_slots
  load_device clock text = elim (j.from_json text) [
    | none ↦ err serde_error
    | some device ↦ ok (record { slots = expire_slots clock device.slots })
  ]

  unfoldable pub load : Bool → Io → Exec j.Text Error Config
  unfolding load_device
  load rw io = do
    lift (guard io.opened io_error)
    device ← (λ text. (load_device io.load_clock text, text))
    pure (record { device = device; file = rw })

  -- Config::load_ro and Config::load_rw
  abbrev pub load_ro : Io → Exec j.Text Error Config
  load_ro = load false

  abbrev pub load_rw : Io → Exec j.Text Error Config
  load_rw = load true

  unfoldable pub to_writer : Write → Device → Exec j.Text Error (Unit {0})
  to_writer whole device text = (ok tt, j.to_json device)
  to_writer (short n true) device text = (err serde_error, j.prefix n (j.to_json device))
  to_writer (short n false) device text = (ok tt, j.prefix n (j.to_json device))

  unfoldable pub save : Io → Config → Exec j.Text Error (Unit {0})
  unfolding to_writer
  save io config = do
    lift (guard config.file read_only)
    lift (guard io.sought io_error)
    lift (guard io.truncated io_error)
    (λ text. (ok tt, j.prefix 0 text))
    to_writer io.written config.device
    lift (guard io.flushed io_error)

  -- Config::init_new, after the directory and the file are opened.
  unfoldable pub init_new : Io → Exec j.Text Error (Unit {0})
  unfolding to_writer
  init_new io = do
    lift (guard io.opened io_error)
    (λ text. (ok tt, j.prefix 0 text))
    to_writer io.written (record { slots = replicate device_max_slots none })
