-- ===== src/P11/Attr.antt =====
-- vtok_p11/src/backend/db/object.rs: attribute values.
use aws_nitro_enclaves_acm.Prelude.{ℕ, zero, suc, ◌/◌, ◌%◌, Bool, [], ◌∷◌, length, Bytes, bytes_eq}
use aws_nitro_enclaves_acm.P11.Ck.Objects

-- `to_le_bytes` of an integer of the given number of bytes.
abbrev pub to_le_bytes : ℕ → ℕ → Bytes
to_le_bytes zero n = []
to_le_bytes (suc k) n = n % 256 ∷ to_le_bytes k (n / 256)

pub data Attr : Type 0 where
  bytes ck_bbool ck_byte ck_key_type ck_cert_type : Bytes → Attr
  ck_cert_category ck_mechanism_type ck_object_class ck_ulong : Bytes → Attr
  sensitive : Attr

abbrev pub attr_true : Attr
attr_true = ck_bbool (Objects.ck_true ∷ [])

abbrev pub attr_false : Attr
attr_false = ck_bbool (Objects.ck_false ∷ [])

-- Attr::as_bytes
unfoldable pub as_bytes : Attr → Bytes
as_bytes (bytes v) = v
as_bytes (ck_bbool v) = v
as_bytes (ck_byte v) = v
as_bytes (ck_key_type v) = v
as_bytes (ck_cert_type v) = v
as_bytes (ck_cert_category v) = v
as_bytes (ck_mechanism_type v) = v
as_bytes (ck_object_class v) = v
as_bytes (ck_ulong v) = v
as_bytes sensitive = []

-- Attr::len
unfoldable pub attr_len : Attr → ℕ
attr_len (bytes v) = length v
attr_len (ck_bbool v) = length v
attr_len (ck_byte v) = length v
attr_len (ck_key_type v) = length v
attr_len (ck_cert_type v) = length v
attr_len (ck_cert_category v) = length v
attr_len (ck_mechanism_type v) = length v
attr_len (ck_object_class v) = length v
attr_len (ck_ulong v) = length v
attr_len sensitive = 0

-- Attr::eq
unfoldable pub attr_eq : Attr → Attr → Bool
unfolding as_bytes
attr_eq a b = bytes_eq (as_bytes a) (as_bytes b)

-- A CK_BYTE is one byte, the other integers are a CK_ULONG of eight.
abbrev pub from_ck_byte : ℕ → Attr
from_ck_byte n = ck_byte (to_le_bytes 1 n)

abbrev pub from_ck_key_type : ℕ → Attr
from_ck_key_type n = ck_key_type (to_le_bytes 8 n)

abbrev pub from_ck_cert_type : ℕ → Attr
from_ck_cert_type n = ck_cert_type (to_le_bytes 8 n)

abbrev pub from_ck_cert_category : ℕ → Attr
from_ck_cert_category n = ck_cert_category (to_le_bytes 8 n)

abbrev pub from_ck_mechanism_type : ℕ → Attr
from_ck_mechanism_type n = ck_mechanism_type (to_le_bytes 8 n)

abbrev pub from_ck_object_class : ℕ → Attr
from_ck_object_class n = ck_object_class (to_le_bytes 8 n)

abbrev pub from_ck_ulong : ℕ → Attr
from_ck_ulong n = ck_ulong (to_le_bytes 8 n)
