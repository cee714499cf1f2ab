-- ===== src/P11/Api/Output.antt =====
-- vtok_p11/src/api/mod.rs, and the shape that C_Sign, C_SignFinal, C_Digest, C_DigestFinal, C_Encrypt
-- and C_Decrypt share: an operation that gives bytes in a buffer of the caller.
use aws_nitro_enclaves_acm.Prelude.{
  ℕ, Bool, true, false, ltb, Option, none, some, length, Bytes, if◌then◌else◌, Result, ok, err,
}
use aws_nitro_enclaves_acm.P11.Ck.Rv
use aws_nitro_enclaves_acm.P11.Error.{CryptoError, crypto_error, ck_rv}
use aws_nitro_enclaves_acm.P11.OpCtx.{OpCtxState}

-- The caller's length, none where its pointer is null, and whether the buffer's pointer is not null.
pub record OutBuf : Type 0 where
  pub len : Option ℕ
  pub has_buf : Bool

-- The return value, the new length where one is written, and the bytes written to the buffer.
pub record Reply : Type 0 where
  pub rv : ℕ
  pub new_len : Option ℕ
  pub written : Option Bytes

abbrev pub only : ℕ → Reply
only rv = record { rv = rv; new_len = none; written = none }

-- One kind of operation of a session: its context there, what entering a state does, the length of
-- its output, and what is done where a pointer is null.
pub record Op (S : Type 0) : Type 1 where
  pub Ctx : Type 0
  pub ctx_of : S → Option Ctx
  pub put : Option Ctx → S → S
  pub enter : Ctx → OpCtxState → Ctx × Result CryptoError (Unit {0})
  pub out_len : Ctx → ℕ
  pub on_null : S → S

module _ {S : Type 0} (op : Op S) where
  -- copy_data_to_ck_out_slice, or the error of the operation.
  abbrev pub copied : ℕ → ℕ → Result CryptoError Bytes → Reply
  copied user_len out_len (err e) = record {
    rv = ck_rv (crypto_error e);
    new_len = some out_len;
    written = none;
  }
  copied user_len out_len (ok v) =
      if ltb user_len (length v)
      then record { rv = Rv.ckr_device_error; new_len = some out_len; written = none }
      else record { rv = Rv.ckr_ok; new_len = some (length v); written = some v }

  abbrev pub in_slice : Option (op.Ctx → Result CryptoError Bytes) → op.Ctx → S → ℕ → Reply × S
  in_slice none ctx s user_len = (
    record { rv = Rv.ckr_arguments_bad; new_len = some (op.out_len ctx); written = none },
    op.on_null s,
  )
  in_slice (some run) ctx s user_len = (copied user_len (op.out_len ctx) (run ctx), op.put none s)

  -- ck_out_buf_to_mut_slice
  abbrev pub out_slice :
      Option (op.Ctx → Result CryptoError Bytes) → op.Ctx → S → Option ℕ → Bool → Reply × S
  out_slice run ctx s none has_buf = (only Rv.ckr_arguments_bad, op.on_null s)
  out_slice run ctx s (some user_len) false =
      (record { rv = Rv.ckr_ok; new_len = some (op.out_len ctx); written = none }, s)
  out_slice run ctx s (some user_len) true =
      if ltb user_len (op.out_len ctx)
      then (
        record { rv = Rv.ckr_buffer_too_small; new_len = some (op.out_len ctx); written = none },
        s,
      )
      else in_slice run ctx s user_len

  abbrev pub entered :
      Option (op.Ctx → Result CryptoError Bytes)
      → OutBuf
      → S
      → op.Ctx × Result CryptoError (Unit {0})
      → Reply × S
  entered run out s (ctx, err e) = (only (ck_rv (crypto_error e)), op.put none s)
  entered run out s (ctx, ok _) = out_slice run ctx (op.put (some ctx) s) out.len out.has_buf

  abbrev pub begun :
      OpCtxState
      → Option (op.Ctx → Result CryptoError Bytes)
      → OutBuf
      → S
      → Option op.Ctx
      → Reply × S
  begun st run out s none = (only Rv.ckr_operation_not_initialized, op.put none s)
  begun st run out s (some ctx) = entered run out s (op.enter ctx st)

  -- The operation enters a state, and then, if there is room, ends with what `run` gives: none where
  -- the pointer to its input is null.
  unfoldable pub produce :
      OpCtxState → Option (op.Ctx → Result CryptoError Bytes) → OutBuf → S → Reply × S
  unfolding ck_rv
  produce st run out s = begun st run out s (op.ctx_of s)
