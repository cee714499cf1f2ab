-- ===== src/P11/Api/Entry.antt =====
-- vtok_p11/src/api/mod.rs, session.rs and token.rs: the calls on the library, on sessions and on
-- logins. The state is the device behind `data::DEVICE`, none before C_Initialize.
use aws_nitro_enclaves_acm.Prelude.{
  ℕ, ◌==◌, Bool, not, Option, none, some, Bytes, is_some, if◌then◌else◌, Result, ok, err, from_utf8,
}
use Prim.Native.Nat.{bit_and}
use aws_nitro_enclaves_acm.P11.Ck.Rv
use aws_nitro_enclaves_acm.P11.Ck.Flags
use aws_nitro_enclaves_acm.P11.Error.{Error, ck_rv}
use aws_nitro_enclaves_acm.P11.Crypto.Evp.{Evp}
use aws_nitro_enclaves_acm.P11.Token.{DbLoader}
use aws_nitro_enclaves_acm.P11.Device.{
  Device, World, new_device, open_session, close_session, close_all_slot_sessions, login, logout,
}

module _ {E : Evp} where
  -- A call on the device, and its return value.
  abbrev pub rv_and : Result Error (Unit {0}) × Device E → ℕ × Option (Device E)
  rv_and (ok _, d) = (Rv.ckr_ok, some d)
  rv_and (err e, d) = (ck_rv e, some d)

  -- lock_device_mut
  abbrev pub lock_device_mut :
      (Device E → ℕ × Option (Device E)) → Option (Device E) → ℕ × Option (Device E)
  lock_device_mut act none = (Rv.ckr_cryptoki_not_initialized, none)
  lock_device_mut act (some d) = act d

  abbrev installed : Result Error (Device E) → ℕ × Option (Device E)
  installed (ok d) = (Rv.ckr_ok, some d)
  installed (err e) = (ck_rv e, none)

  abbrev initialize_first : DbLoader → World → Option (Device E) → ℕ × Option (Device E)
  initialize_first load_db w (some d) = (Rv.ckr_cryptoki_already_initialized, some d)
  initialize_first load_db w none = installed (new_device load_db w)

  -- C_Initialize, given whether its arguments have a reserved pointer.
  unfoldable pub initialize : DbLoader → World → Bool → Option (Device E) → ℕ × Option (Device E)
  unfolding ck_rv new_device
  initialize load_db w reserved dev =
      if reserved then (Rv.ckr_arguments_bad, dev) else initialize_first load_db w dev

  -- C_Finalize, given whether its reserved pointer is not null.
  unfoldable pub finalize : Bool → Option (Device E) → ℕ × Option (Device E)
  finalize reserved dev =
      if reserved
      then (Rv.ckr_arguments_bad, dev)
      else if is_some dev
      then (Rv.ckr_ok, none)
      else (Rv.ckr_cryptoki_not_initialized, dev)

  abbrev opened : Result Error ℕ × Device E → (ℕ × Option ℕ) × Option (Device E)
  opened (ok handle, d) = ((Rv.ckr_ok, some handle), some d)
  opened (err e, d) = ((ck_rv e, none), some d)

  abbrev open_locked : ℕ → ℕ → Option (Device E) → (ℕ × Option ℕ) × Option (Device E)
  open_locked now slot_id none = ((Rv.ckr_cryptoki_not_initialized, none), none)
  open_locked now slot_id (some d) = opened (open_session now slot_id d)

  -- C_OpenSession: its return value and the handle that it writes. `has_out` tells whether the
  -- pointer for the handle is not null.
  unfoldable pub c_open_session :
      ℕ → ℕ → ℕ → Bool → Option (Device E) → (ℕ × Option ℕ) × Option (Device E)
  unfolding ck_rv open_session
  c_open_session now slot_id flags has_out dev =
      if not has_out
      then ((Rv.ckr_arguments_bad, none), dev)
      else if bit_and flags Flags.ckf_serial_session == 0
      then ((Rv.ckr_session_parallel_not_supported, none), dev)
      else if not (bit_and flags Flags.ckf_rw_session == 0)
      then ((Rv.ckr_token_write_protected, none), dev)
      else open_locked now slot_id dev

  -- C_CloseSession
  unfoldable pub c_close_session : ℕ → ℕ → Option (Device E) → ℕ × Option (Device E)
  unfolding ck_rv close_session
  c_close_session now handle = lock_device_mut (λ d. rv_and (close_session now handle d))

  -- C_CloseAllSessions
  unfoldable pub c_close_all_sessions : ℕ → ℕ → Option (Device E) → ℕ × Option (Device E)
  unfolding ck_rv close_all_slot_sessions
  c_close_all_sessions now slot_id =
      lock_device_mut (λ d. rv_and (close_all_slot_sessions now slot_id d))

  abbrev pub login_with : ℕ → ℕ → Option Bytes → Device E → ℕ × Option (Device E)
  login_with now handle none d = (Rv.ckr_pin_incorrect, some d)
  login_with now handle (some pin) d = rv_and (login now handle pin d)

  abbrev pub login_as : ℕ → ℕ → ℕ → Bytes → Device E → ℕ × Option (Device E)
  login_as now handle user_type pin d =
      if user_type == Flags.cku_so
      then (Rv.ckr_session_read_only_exists, some d)
      else if user_type == Flags.cku_context_specific
      then (Rv.ckr_user_type_invalid, some d)
      else if user_type == Flags.cku_user
      then login_with now handle (from_utf8 pin) d
      else (Rv.ckr_user_type_invalid, some d)

  -- C_Login: the PIN is none where its pointer is null.
  unfoldable pub c_login : ℕ → ℕ → ℕ → Option Bytes → Option (Device E) → ℕ × Option (Device E)
  unfolding ck_rv login from_utf8
  c_login now handle user_type none dev = (Rv.ckr_arguments_bad, dev)
  c_login now handle user_type (some pin) dev =
      lock_device_mut (login_as now handle user_type pin) dev

  -- C_Logout
  unfoldable pub c_logout : ℕ → ℕ → Option (Device E) → ℕ × Option (Device E)
  unfolding ck_rv logout
  c_logout now handle = lock_device_mut (λ d. rv_and (logout now handle d))
