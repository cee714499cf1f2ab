-- ===== src/P11/Api/Begin.antt =====
-- vtok_p11/src/api/mod.rs, `lock_session_mut!`, and the C functions of sign.rs, verify.rs, digest.rs,
-- encrypt.rs and decrypt.rs that start an operation on the session of a handle.
use aws_nitro_enclaves_acm.Prelude.{ℕ, ◌==◌, Option, none, some, Result, ok, err, if◌then◌else◌}
use aws_nitro_enclaves_acm.Prelude.Assoc.{get, update_all}
use aws_nitro_enclaves_acm.P11.Ck.Rv
use aws_nitro_enclaves_acm.P11.Error.{Error, ck_rv}
use aws_nitro_enclaves_acm.P11.Mechanism.{Mechanism, RawMechanism, from_ckraw_mech}
use aws_nitro_enclaves_acm.P11.Crypto.Evp.{Evp}
use aws_nitro_enclaves_acm.P11.Session.{
  Session, digest_init, sign_init, verify_init, encrypt_init, decrypt_init,
}
use aws_nitro_enclaves_acm.P11.Token
use aws_nitro_enclaves_acm.P11.Device.{Device, World, session_mut, token_unchecked, put_token}

module _ {E : Evp} where
  abbrev with_session : ℕ → Session E → Token.Token E → Token.Token E
  with_session handle s t = record t {
    sessions = update_all (λ h s'. if h == handle then s else s') t.sessions;
  }

  -- The device once a session was changed behind its lock.
  unfoldable pub put_session : ℕ → Session E → Device E → Device E
  put_session handle s d = elim (get handle d.session_slot_map) [
    | none ↦ d
    | some slot_id ↦ elim (token_unchecked slot_id d) [
      | err e ↦ d
      | ok t ↦ put_token slot_id (with_session handle s t) d
    ]
  ]

  -- A call on the session of a handle, and its return value.
  unfoldable pub lock_session_mut :
      World → ℕ → (Session E → ℕ × Session E) → Option (Device E) → ℕ × Option (Device E)
  lock_session_mut w handle act none = (Rv.ckr_cryptoki_not_initialized, none)
  lock_session_mut w handle act (some d) = elim (session_mut w handle d).0 [
    | none ↦ (Rv.ckr_session_handle_invalid, some (session_mut w handle d).1)
    | some s ↦ ((act s).0, some (put_session handle (act s).1 (session_mut w handle d).1))
  ]

  abbrev pub rv_session : Result Error (Unit {0}) × Session E → ℕ × Session E
  rv_session (ok _, s) = (Rv.ckr_ok, s)
  rv_session (err e, s) = (ck_rv e, s)

  -- The mechanism is read before the session is locked. It is none where its pointer is null.
  unfoldable pub init_with :
      (Mechanism → ℕ → Session E → Result Error (Unit {0}) × Session E)
      → World
      → ℕ
      → Option RawMechanism
      → ℕ
      → Option (Device E)
      → ℕ × Option (Device E)
  init_with init w handle none key dev = (Rv.ckr_arguments_bad, dev)
  init_with init w handle (some raw_mech) key dev = elim (from_ckraw_mech raw_mech) [
    | err e ↦ (Rv.ckr_mechanism_invalid, dev)
    | ok mech ↦ lock_session_mut w handle (λ s. rv_session (init mech key s)) dev
  ]

  abbrev pub c_sign_init :
      World → ℕ → Option RawMechanism → ℕ → Option (Device E) → ℕ × Option (Device E)
  c_sign_init = init_with (λ mech key s. sign_init mech key s)

  abbrev pub c_verify_init :
      World → ℕ → Option RawMechanism → ℕ → Option (Device E) → ℕ × Option (Device E)
  c_verify_init = init_with (λ mech key s. verify_init mech key s)

  abbrev pub c_decrypt_init :
      World → ℕ → Option RawMechanism → ℕ → Option (Device E) → ℕ × Option (Device E)
  c_decrypt_init = init_with (λ mech key s. decrypt_init mech key s)

  abbrev encrypt_with : Option Mechanism → ℕ → Session E → ℕ × Session E
  encrypt_with none key s = (Rv.ckr_mechanism_invalid, s)
  encrypt_with (some mech) key s = rv_session (encrypt_init mech key s)

  -- C_EncryptInit, which locks the session first.
  unfoldable pub c_encrypt_init :
      World → ℕ → Option RawMechanism → ℕ → Option (Device E) → ℕ × Option (Device E)
  c_encrypt_init w handle none key dev = (Rv.ckr_arguments_bad, dev)
  c_encrypt_init w handle (some raw_mech) key dev =
      lock_session_mut w handle
        (λ s. elim (from_ckraw_mech raw_mech) [
          | err e ↦ encrypt_with none key s
          | ok mech ↦ encrypt_with (some mech) key s
        ])
        dev

  -- C_DigestInit
  unfoldable pub c_digest_init :
      World → ℕ → Option RawMechanism → Option (Device E) → ℕ × Option (Device E)
  c_digest_init w handle none dev = (Rv.ckr_arguments_bad, dev)
  c_digest_init w handle (some raw_mech) dev =
      lock_session_mut w handle (λ s. rv_session (digest_init raw_mech.type s)) dev
