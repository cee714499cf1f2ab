-- ===== src/P11/RawAttr.antt =====
-- vtok_p11/src/util/ckraw.rs: the attributes of a template. A buffer is the bytes that the caller
-- allocated, none where its pointer is null; the length beside it is what the caller wrote there.
use aws_nitro_enclaves_acm.Prelude.{
  ℕ, Option, none, some, ◌++◌, length, take, drop, Bytes, if◌then◌else◌, ltb,
}

-- CK_ATTRIBUTE
pub record CkRawAttr : Type 0 where
  pub type : ℕ
  pub value : Option Bytes
  pub value_len : ℕ

pub data RawError : Type 0 where
  buf_too_small null_ptr_deref : RawError

-- The bytes that a pointer and a length stand for.
abbrev pub from_raw_parts : Option Bytes → ℕ → Option Bytes
from_raw_parts none len = none
from_raw_parts (some buf) len = some (take len buf)

-- CkRawAttr::val_bytes
unfoldable pub val_bytes : CkRawAttr → Option Bytes
val_bytes raw = from_raw_parts raw.value raw.value_len

-- CkRawAttr::set_len
abbrev pub set_len : ℕ → CkRawAttr → CkRawAttr
set_len len raw = record { type = raw.type; value = raw.value; value_len = len }

abbrev pub overwrite : Bytes → Bytes → Bytes
overwrite bytes buf = bytes ++ drop (length bytes) buf

abbrev pub set_value : Bytes → CkRawAttr → CkRawAttr
set_value buf raw = record { type = raw.type; value = some buf; value_len = raw.value_len }

abbrev pub write_bytes : Bytes → CkRawAttr → Option Bytes → CkRawAttr × Option RawError
write_bytes bytes raw none = (raw, some null_ptr_deref)
write_bytes bytes raw (some buf) =
    if ltb raw.value_len (length bytes)
    then (raw, some buf_too_small)
    else (set_value (overwrite bytes buf) raw, none)

-- CkRawAttr::set_val_bytes: the attribute that it leaves, and the error if it wrote nothing.
unfoldable pub set_val_bytes : Bytes → CkRawAttr → CkRawAttr × Option RawError
set_val_bytes bytes raw = write_bytes bytes raw raw.value
