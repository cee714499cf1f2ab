-- ===== src/P11/Api/Multipart.antt =====
-- vtok_p11/src/api/sign.rs, digest.rs and verify.rs: the calls that take a part of the data, and
-- verification, which gives no bytes.
use aws_nitro_enclaves_acm.Prelude.{
  ℕ, not, ◌≡◌, ap, Option, none, some, length, Bytes, if◌then◌else◌, Result, ok, err, arith,
  Option-cases, inl, inr,
}
use aws_nitro_enclaves_acm.P11.Ck.Rv
use aws_nitro_enclaves_acm.P11.Error.{CryptoError, crypto_error, ck_rv}
use aws_nitro_enclaves_acm.P11.OpCtx.{OpCtxState, singlepart_active, multipart_ready}
use aws_nitro_enclaves_acm.P11.Crypto.Evp.{Evp}
use aws_nitro_enclaves_acm.P11.Crypto.Digest.{DigestCtx, digest_ctx_update}
use aws_nitro_enclaves_acm.P11.Crypto.Sign
use aws_nitro_enclaves_acm.P11.Crypto.Verify
use aws_nitro_enclaves_acm.P11.Session.{Session}
use aws_nitro_enclaves_acm.P11.Api.Output.{OutBuf, only, begun, produce}
use aws_nitro_enclaves_acm.P11.Api.Operations.{sign_final, sign_op}

-- The return value of a result without a value.
abbrev pub rv_of : Result CryptoError (Unit {0}) → ℕ
rv_of (ok _) = Rv.ckr_ok
rv_of (err e) = ck_rv (crypto_error e)

module _ (E : Evp) where
  abbrev sign_part : Bytes → Session E → Option (Sign.SignCtx E) → ℕ × Session E
  sign_part data_in s none = (Rv.ckr_operation_not_initialized, record s { sign_ctx = none })
  sign_part data_in s (some ctx) =
      (rv_of (Sign.sign_ctx_update E ctx data_in).1, record s { sign_ctx = none })

  -- C_SignUpdate: the context is taken out of the session, and is dropped after the update.
  unfoldable pub sign_update : Option Bytes → Session E → ℕ × Session E
  unfolding Sign.sign_ctx_update ck_rv
  sign_update none s = (Rv.ckr_arguments_bad, s)
  sign_update (some data_in) s = sign_part data_in s s.sign_ctx

  abbrev digest_part : Bytes → Session E → Option (DigestCtx E) → ℕ × Session E
  digest_part data_in s none = (Rv.ckr_operation_not_initialized, s)
  digest_part data_in s (some ctx) =
      let r = digest_ctx_update E ctx data_in in (rv_of r.1, record s { digest_ctx = some r.0 })

  -- C_DigestUpdate
  unfoldable pub digest_update : Option Bytes → Session E → ℕ × Session E
  unfolding digest_ctx_update ck_rv
  digest_update none s = (Rv.ckr_arguments_bad, record s { digest_ctx = none })
  digest_update (some data_in) s = digest_part data_in s s.digest_ctx

  abbrev verify_part : Bytes → Session E → Option (Verify.VerifyCtx E) → ℕ × Session E
  verify_part data_in s none = (Rv.ckr_operation_not_initialized, s)
  verify_part data_in s (some ctx) =
      let r = Verify.verify_ctx_update E ctx data_in in
      (rv_of r.1, record s { verify_ctx = some r.0 })

  -- C_VerifyUpdate
  unfoldable pub verify_update : Option Bytes → Session E → ℕ × Session E
  unfolding Verify.verify_ctx_update ck_rv
  verify_update none s = (Rv.ckr_arguments_bad, s)
  verify_update (some data_in) s = verify_part data_in s s.verify_ctx

  -- The end of a verification, given its data, where it has any, and its signature.
  abbrev verified :
      Option (Verify.VerifyCtx E → Bytes → Result CryptoError (Unit {0}))
      → Option Bytes
      → Verify.VerifyCtx E × Result CryptoError (Unit {0})
      → ℕ
  verified run signature (ctx, err e) = ck_rv (crypto_error e)
  verified none signature (ctx, ok _) = Rv.ckr_arguments_bad
  verified (some run) none (ctx, ok _) = Rv.ckr_arguments_bad
  verified (some run) (some sig) (ctx, ok _) =
      if not (Verify.verify_sig_len_ck E ctx (length sig))
      then Rv.ckr_signature_len_range
      else rv_of (run ctx sig)

  abbrev verify_taken :
      OpCtxState
      → Option (Verify.VerifyCtx E → Bytes → Result CryptoError (Unit {0}))
      → Option Bytes
      → Option (Verify.VerifyCtx E)
      → ℕ
  verify_taken st run signature none = Rv.ckr_operation_not_initialized
  verify_taken st run signature (some ctx) =
      verified run signature (Verify.verify_enter_state E ctx st)

  abbrev verify_data :
      Option Bytes → Option (Verify.VerifyCtx E → Bytes → Result CryptoError (Unit {0}))
  verify_data none = none
  verify_data (some data_in) = some (λ ctx sig. Verify.verify_once E ctx data_in sig)

  -- C_Verify: the context is taken first, whatever comes after.
  unfoldable pub verify : Option Bytes → Option Bytes → Session E → ℕ × Session E
  unfolding Verify.verify_enter_state Verify.verify_once ck_rv
  verify data_in signature s = (
    verify_taken singlepart_active (verify_data data_in) signature s.verify_ctx,
    record s { verify_ctx = none },
  )

  -- C_VerifyFinal
  unfoldable pub verify_final : Option Bytes → Session E → ℕ × Session E
  unfolding Verify.verify_enter_state Verify.verify_finalize ck_rv
  verify_final signature s = (
    verify_taken multipart_ready (some (Verify.verify_finalize E)) signature s.verify_ctx,
    record s { verify_ctx = none },
  )

  sign_update-drops :
      (data_in : Bytes) (s : Session E) → (sign_update (some data_in) s).1.sign_ctx ≡ none
  unfolding sign_update
  sign_update-drops data_in s = elim (Option-cases s.sign_ctx) [
    | inl none_ ↦ ground arith
    | inr (ctx, has) ↦ ground arith
  ]

  sign_final-none :
      (out : OutBuf) (s : Session E)
      → s.sign_ctx ≡ none
      → (sign_final E out s).0 ≡ only Rv.ckr_operation_not_initialized
  unfolding sign_final produce
  sign_final-none out s h =
      ap (λ c. (begun (sign_op E) multipart_ready (some (Sign.sign_finalize E)) out s c).0) h

  sign_update-none :
      (data_in : Bytes) (s : Session E)
      → s.sign_ctx ≡ none
      → (sign_update (some data_in) s).0 ≡ Rv.ckr_operation_not_initialized
  unfolding sign_update
  sign_update-none data_in s h = ground (arith, h)

  -- After a call of `C_SignUpdate` with a part of the data, whatever it returned, both `C_SignFinal`
  -- and another `C_SignUpdate` say that no signing operation is active, and write nothing.
  pub sign_final-sign_update :
      (data_in next : Bytes) (out : OutBuf) (s : Session E)
      → ((sign_final E out (sign_update (some data_in) s).1).0
          ≡ only Rv.ckr_operation_not_initialized)
        × ((sign_update (some next) (sign_update (some data_in) s).1).0
            ≡ Rv.ckr_operation_not_initialized)
  sign_final-sign_update data_in next out s = (
    sign_final-none out (sign_update (some data_in) s).1 (sign_update-drops data_in s),
    sign_update-none next (sign_update (some data_in) s).1 (sign_update-drops data_in s),
  )
