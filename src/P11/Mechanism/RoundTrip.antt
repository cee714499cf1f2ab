-- ===== src/P11/Mechanism/RoundTrip.antt =====
-- Mechanism types determine mechanisms, and the parameters of PSS must agree with the type.
use aws_nitro_enclaves_acm.Prelude.{
  ◌≡◌, refl, Option, none, some, Result, ok, arith, Bool-cases, Result-cases, inl, inr, sym, subst,
  ap, ◌∙◌, ==_iff, ◌==◌,
}
use aws_nitro_enclaves_acm.P11.Mechanism.{
  sha1, sha224, sha256, sha384, sha512, PssParams, Mechanism, digest, rsa_pkcs, rsa_pkcs_pss,
  rsa_x509, ecdsa, RawMechanism, pss_params_size, ck_type, match_type, check_digest,
  from_ckraw_mech, Error,
}

abbrev pub params_of : Mechanism → Option PssParams
params_of (digest _) = none
params_of (rsa_pkcs _) = none
params_of (rsa_pkcs_pss _ p) = p
params_of rsa_x509 = none
params_of (ecdsa _) = none

-- The `CK_MECHANISM` by which an application asks for a mechanism.
abbrev pub raw_of : Mechanism → RawMechanism
raw_of mech = record {
  type = ck_type mech;
  parameter = params_of mech;
  parameter_len = pss_params_size;
}

-- A PSS mechanism with a hash of its own has that hash in its parameters, if it has any.
abbrev pub IsConsistent : Mechanism → Type 0
IsConsistent (rsa_pkcs_pss (some d) (some p)) = p.hash_alg ≡ ck_type (digest d)
IsConsistent _ = Unit

from-raw_of : (mech : Mechanism) → IsConsistent mech → from_ckraw_mech (raw_of mech) ≡ ok mech
unfolding from_ckraw_mech
from-raw_of (digest sha1) c = refl
from-raw_of (digest sha224) c = refl
from-raw_of (digest sha256) c = refl
from-raw_of (digest sha384) c = refl
from-raw_of (digest sha512) c = refl
from-raw_of (rsa_pkcs none) c = refl
from-raw_of (rsa_pkcs (some sha1)) c = refl
from-raw_of (rsa_pkcs (some sha224)) c = refl
from-raw_of (rsa_pkcs (some sha256)) c = refl
from-raw_of (rsa_pkcs (some sha384)) c = refl
from-raw_of (rsa_pkcs (some sha512)) c = refl
from-raw_of (rsa_pkcs_pss none none) c = refl
from-raw_of (rsa_pkcs_pss none (some p)) c = refl
from-raw_of (rsa_pkcs_pss (some sha1) none) c = refl
from-raw_of (rsa_pkcs_pss (some sha224) none) c = refl
from-raw_of (rsa_pkcs_pss (some sha256) none) c = refl
from-raw_of (rsa_pkcs_pss (some sha384) none) c = refl
from-raw_of (rsa_pkcs_pss (some sha512) none) c = refl
from-raw_of (rsa_pkcs_pss (some sha1) (some p)) c = ground arith
from-raw_of (rsa_pkcs_pss (some sha224) (some p)) c = ground arith
from-raw_of (rsa_pkcs_pss (some sha256) (some p)) c = ground arith
from-raw_of (rsa_pkcs_pss (some sha384) (some p)) c = ground arith
from-raw_of (rsa_pkcs_pss (some sha512) (some p)) c = ground arith
from-raw_of rsa_x509 c = refl
from-raw_of (ecdsa none) c = refl
from-raw_of (ecdsa (some sha1)) c = refl
from-raw_of (ecdsa (some sha224)) c = refl
from-raw_of (ecdsa (some sha256)) c = refl
from-raw_of (ecdsa (some sha384)) c = refl
from-raw_of (ecdsa (some sha512)) c = refl

match_type-ck_type :
    (raw : RawMechanism) (mech : Mechanism) → match_type raw ≡ ok mech → ck_type mech ≡ raw.type
unfolding match_type ck_type
match_type-ck_type raw mech h = ground arith

IsConsistent-ok :
    (mech mech' : Mechanism)
    → IsConsistent mech
    → ◌≡◌ {A = Result Error Mechanism} (ok mech) (ok mech')
    → (mech' ≡ mech) × IsConsistent mech'
IsConsistent-ok mech mech' c h =
    let kept : mech' ≡ mech = ground arith in (kept, subst IsConsistent (sym kept) c)

check_digest-IsConsistent :
    (mech mech' : Mechanism) → check_digest mech ≡ ok mech' → (mech' ≡ mech) × IsConsistent mech'
unfolding check_digest
check_digest-IsConsistent (rsa_pkcs_pss (some d) (some p)) mech' h =
    elim (Bool-cases (p.hash_alg == ck_type (digest d))) [
      | inl same ↦
          let kept : mech' ≡ rsa_pkcs_pss (some d) (some p) = ground arith in
          (kept, subst IsConsistent (sym kept) ((==_iff _ _).0 same))
      | inr other ↦ ground arith
    ]
check_digest-IsConsistent (rsa_pkcs_pss none p) mech' h = IsConsistent-ok _ _ tt h
check_digest-IsConsistent (rsa_pkcs_pss (some d) none) mech' h = IsConsistent-ok _ _ tt h
check_digest-IsConsistent (digest d) mech' h = IsConsistent-ok _ _ tt h
check_digest-IsConsistent (rsa_pkcs d) mech' h = IsConsistent-ok _ _ tt h
check_digest-IsConsistent rsa_x509 mech' h = IsConsistent-ok _ _ tt h
check_digest-IsConsistent (ecdsa d) mech' h = IsConsistent-ok _ _ tt h

-- A raw mechanism that is accepted has the type of the mechanism that it is read as, and where that
-- mechanism is PSS with a hash and with parameters, their hash algorithm is that hash.
pub from_ckraw_mech_sound :
    (raw : RawMechanism) (mech : Mechanism)
    → from_ckraw_mech raw ≡ ok mech
    → (ck_type mech ≡ raw.type) × IsConsistent mech
unfolding from_ckraw_mech
from_ckraw_mech_sound raw mech h = elim (Result-cases (match_type raw)) [
  | inr (e, bad) ↦ ground arith
  | inl (m, good) ↦
      let (kept, c) = check_digest-IsConsistent m mech (ground arith) in
      (ap ck_type kept ∙ match_type-ck_type raw m good, c)
]

-- Asking for a mechanism by its own type and parameters gives that mechanism, for every mechanism
-- whose PSS parameters, if any, agree with its hash.
pub from_ckraw_mech_complete :
    (mech : Mechanism) → IsConsistent mech → from_ckraw_mech (raw_of mech) ≡ ok mech
from_ckraw_mech_complete mech c = from-raw_of mech c
