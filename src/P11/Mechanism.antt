-- ===== src/P11/Mechanism.antt =====
-- vtok_p11/src/backend/mech.rs and the raw mechanism of vtok_p11/src/util/ckraw.rs.
pub mod RoundTrip
use aws_nitro_enclaves_acm.Prelude.{
  ℕ, ◌+◌, ◌==◌, Bool, true, false, not, ◌||◌, Option, none, some, is_some, if◌then◌else◌, Result,
  ok, err, map_err, guard, ◌>>=◌, ◌>>◌,
}
use Prim.Native.Nat.{bit_or}
use aws_nitro_enclaves_acm.P11.Ck.Mech
use aws_nitro_enclaves_acm.P11.Ck.Flags

pub data MechDigest : Type 0 where
  sha1 sha224 sha256 sha384 sha512 : MechDigest

-- CK_RSA_PKCS_PSS_PARAMS: three machine words.
pub record PssParams : Type 0 where
  pub hash_alg : ℕ
  pub mgf : ℕ
  pub s_len : ℕ

abbrev pub pss_params_size : ℕ
pss_params_size = 24

pub data Mechanism : Type 0 where
  digest : MechDigest → Mechanism
  rsa_pkcs : Option MechDigest → Mechanism
  rsa_pkcs_pss : Option MechDigest → Option PssParams → Mechanism
  rsa_x509 : Mechanism
  ecdsa : Option MechDigest → Mechanism

pub data Error : Type 0 where
  mech_param_type_mismatch digest_mech_mismatch unknown_mech : Error

-- A `CK_MECHANISM`: its type, its parameter (none where the pointer is null) and its length.
pub record RawMechanism : Type 0 where
  pub type : ℕ
  pub parameter : Option PssParams
  pub parameter_len : ℕ

-- CkRawMechanism::params
unfoldable pub params : RawMechanism → Result Error (Option PssParams)
params raw =
    if not (is_some raw.parameter) || raw.parameter_len == 0
    then ok none
    else if raw.parameter_len == pss_params_size
    then ok raw.parameter
    else err mech_param_type_mismatch

unfoldable pub ck_type : Mechanism → ℕ
ck_type (digest sha1) = Mech.ckm_sha_1
ck_type (digest sha224) = Mech.ckm_sha224
ck_type (digest sha256) = Mech.ckm_sha256
ck_type (digest sha384) = Mech.ckm_sha384
ck_type (digest sha512) = Mech.ckm_sha512
ck_type (rsa_pkcs none) = Mech.ckm_rsa_pkcs
ck_type (rsa_pkcs (some sha1)) = Mech.ckm_sha1_rsa_pkcs
ck_type (rsa_pkcs (some sha224)) = Mech.ckm_sha224_rsa_pkcs
ck_type (rsa_pkcs (some sha256)) = Mech.ckm_sha256_rsa_pkcs
ck_type (rsa_pkcs (some sha384)) = Mech.ckm_sha384_rsa_pkcs
ck_type (rsa_pkcs (some sha512)) = Mech.ckm_sha512_rsa_pkcs
ck_type (rsa_pkcs_pss none _) = Mech.ckm_rsa_pkcs_pss
ck_type (rsa_pkcs_pss (some sha1) _) = Mech.ckm_sha1_rsa_pkcs_pss
ck_type (rsa_pkcs_pss (some sha224) _) = Mech.ckm_sha224_rsa_pkcs_pss
ck_type (rsa_pkcs_pss (some sha256) _) = Mech.ckm_sha256_rsa_pkcs_pss
ck_type (rsa_pkcs_pss (some sha384) _) = Mech.ckm_sha384_rsa_pkcs_pss
ck_type (rsa_pkcs_pss (some sha512) _) = Mech.ckm_sha512_rsa_pkcs_pss
ck_type rsa_x509 = Mech.ckm_rsa_x_509
ck_type (ecdsa none) = Mech.ckm_ecdsa
ck_type (ecdsa (some sha1)) = Mech.ckm_ecdsa_sha1
ck_type (ecdsa (some sha224)) = Mech.ckm_ecdsa_sha224
ck_type (ecdsa (some sha256)) = Mech.ckm_ecdsa_sha256
ck_type (ecdsa (some sha384)) = Mech.ckm_ecdsa_sha384
ck_type (ecdsa (some sha512)) = Mech.ckm_ecdsa_sha512

-- A PSS mechanism with the parameters that the caller gave.
abbrev with_params : RawMechanism → Option MechDigest → Result Error Mechanism
with_params raw d = do p ← params raw; ok (rsa_pkcs_pss d p)

-- The match on the mechanism type.
unfoldable pub match_type : RawMechanism → Result Error Mechanism
unfolding params
match_type raw =
    if raw.type == Mech.ckm_sha_1
    then ok (digest sha1)
    else if raw.type == Mech.ckm_sha224
    then ok (digest sha224)
    else if raw.type == Mech.ckm_sha256
    then ok (digest sha256)
    else if raw.type == Mech.ckm_sha384
    then ok (digest sha384)
    else if raw.type == Mech.ckm_sha512
    then ok (digest sha512)
    else if raw.type == Mech.ckm_rsa_pkcs
    then ok (rsa_pkcs none)
    else if raw.type == Mech.ckm_sha1_rsa_pkcs
    then ok (rsa_pkcs (some sha1))
    else if raw.type == Mech.ckm_sha224_rsa_pkcs
    then ok (rsa_pkcs (some sha224))
    else if raw.type == Mech.ckm_sha256_rsa_pkcs
    then ok (rsa_pkcs (some sha256))
    else if raw.type == Mech.ckm_sha384_rsa_pkcs
    then ok (rsa_pkcs (some sha384))
    else if raw.type == Mech.ckm_sha512_rsa_pkcs
    then ok (rsa_pkcs (some sha512))
    else if raw.type == Mech.ckm_rsa_pkcs_pss
    then with_params raw none
    else if raw.type == Mech.ckm_sha1_rsa_pkcs_pss
    then with_params raw (some sha1)
    else if raw.type == Mech.ckm_sha224_rsa_pkcs_pss
    then with_params raw (some sha224)
    else if raw.type == Mech.ckm_sha256_rsa_pkcs_pss
    then with_params raw (some sha256)
    else if raw.type == Mech.ckm_sha384_rsa_pkcs_pss
    then with_params raw (some sha384)
    else if raw.type == Mech.ckm_sha512_rsa_pkcs_pss
    then with_params raw (some sha512)
    else if raw.type == Mech.ckm_rsa_x_509
    then ok rsa_x509
    else if raw.type == Mech.ckm_ecdsa
    then ok (ecdsa none)
    else if raw.type == Mech.ckm_ecdsa_sha1
    then ok (ecdsa (some sha1))
    else if raw.type == Mech.ckm_ecdsa_sha224
    then ok (ecdsa (some sha224))
    else if raw.type == Mech.ckm_ecdsa_sha256
    then ok (ecdsa (some sha256))
    else if raw.type == Mech.ckm_ecdsa_sha384
    then ok (ecdsa (some sha384))
    else if raw.type == Mech.ckm_ecdsa_sha512
    then ok (ecdsa (some sha512))
    else err unknown_mech

-- The hash algorithm of the parameters must be that of the mechanism.
unfoldable pub check_digest : Mechanism → Result Error Mechanism
unfolding ck_type
check_digest (rsa_pkcs_pss (some d) (some p)) = do
  guard (p.hash_alg == ck_type (digest d)) digest_mech_mismatch
  ok (rsa_pkcs_pss (some d) (some p))
check_digest mech = ok mech

unfoldable pub from_ckraw_mech : RawMechanism → Result Error Mechanism
unfolding match_type check_digest
from_ckraw_mech raw = do mech ← match_type raw; check_digest mech

unfoldable pub is_multipart : Mechanism → Bool
is_multipart (rsa_pkcs d) = is_some d
is_multipart (rsa_pkcs_pss d _) = is_some d
is_multipart (ecdsa d) = is_some d
is_multipart _ = false

pub record MechanismInfo : Type 0 where
  pub min_key_size : ℕ
  pub max_key_size : ℕ
  pub flags : ℕ

abbrev sign_verify : ℕ
sign_verify = bit_or Flags.ckf_sign Flags.ckf_verify

abbrev crypt : ℕ
crypt = bit_or (bit_or sign_verify Flags.ckf_decrypt) Flags.ckf_encrypt

abbrev curve : ℕ
curve =
    bit_or (bit_or (bit_or sign_verify Flags.ckf_ec_f_p) Flags.ckf_ec_namedcurve)
      Flags.ckf_ec_uncompress

unfoldable pub ck_flags : Mechanism → ℕ
ck_flags (digest _) = bit_or Flags.ckf_hw Flags.ckf_digest
ck_flags (rsa_pkcs none) = bit_or Flags.ckf_hw crypt
ck_flags (rsa_pkcs (some _)) = bit_or Flags.ckf_hw sign_verify
ck_flags (rsa_pkcs_pss _ _) = bit_or Flags.ckf_hw sign_verify
ck_flags rsa_x509 = bit_or Flags.ckf_hw crypt
ck_flags (ecdsa _) = bit_or Flags.ckf_hw curve

abbrev key_bits : Mechanism → ℕ × ℕ
key_bits (digest _) = (0, 0)
key_bits (rsa_pkcs _) = (1024, 8192)
key_bits (rsa_pkcs_pss _ _) = (1024, 8192)
key_bits rsa_x509 = (1024, 8192)
key_bits (ecdsa _) = (224, 521)

unfoldable pub ck_info : Mechanism → MechanismInfo
unfolding ck_flags
ck_info mech = record {
  min_key_size = (key_bits mech).0;
  max_key_size = (key_bits mech).1;
  flags = ck_flags mech;
}
