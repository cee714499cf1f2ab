-- ===== src/P11/Crypto/Verify.antt =====
-- vtok_p11/src/crypto/verify.rs, in the manner of signing.
use aws_nitro_enclaves_acm.Prelude.{
  ℕ, Bool, Bytes, Result, ok, err, ok_or, guard, ◌==◌, ◌>>=◌, if◌then◌else◌,
}
use aws_nitro_enclaves_acm.P11.Error.{
  CryptoError, digest_verify, digest_verify_final, digest_verify_update, direct_verify, md_ctx_init,
  operation_active, pkey_ctx_init, verify_init,
}
use aws_nitro_enclaves_acm.P11.Mechanism.{Mechanism, ck_type}
use aws_nitro_enclaves_acm.P11.OpCtx.{
  OpCtxState, initialized, singlepart_active, multipart_active, multipart_ready, enter_state,
  enter_direct,
}
use aws_nitro_enclaves_acm.P11.Crypto.Evp.{Evp}
use aws_nitro_enclaves_acm.P11.Crypto.Pkey.{
  KeyAlgo, algo, sig_len_ck, mech_type_to_evp_md, config_evp_pkey_ctx, ecdsa_sig_ckrs_to_der,
  from_ck_sig,
}

pub record DigestVerifyCtx (E : Evp) : Type 0 where
  pub state : OpCtxState
  pub evp_md_ctx : E.EvpCtx
  pub algo : KeyAlgo
  pub sig_len_ck : ℕ

pub record DirectVerifyCtx (E : Evp) : Type 0 where
  pub evp_pkey_ctx : E.EvpCtx
  pub algo : KeyAlgo
  pub sig_len_ck : ℕ

pub data VerifyCtx (E : Evp) : Type 0 where
  by_digest : DigestVerifyCtx E → VerifyCtx E
  directly : DirectVerifyCtx E → VerifyCtx E

module _ (E : Evp) where
  -- DigestVerifyCtx::new
  unfoldable pub new_digest_verify_ctx :
      Mechanism → E.EvpPkey → Result CryptoError (DigestVerifyCtx E)
  unfolding mech_type_to_evp_md config_evp_pkey_ctx algo sig_len_ck ck_type
  new_digest_verify_ctx mech pkey = do
    fresh ← ok_or E.evp_md_ctx_new md_ctx_init
    evp_md ← mech_type_to_evp_md E (ck_type mech)
    started ← ok_or (E.evp_digest_verify_init fresh evp_md pkey) verify_init
    evp_md_ctx ← config_evp_pkey_ctx E started mech
    a ← algo E pkey
    len_ck ← sig_len_ck E pkey
    ok (record { state = initialized; evp_md_ctx = evp_md_ctx; algo = a; sig_len_ck = len_ck })

  -- DirectVerifyCtx::new
  unfoldable pub new_direct_verify_ctx :
      Mechanism → E.EvpPkey → Result CryptoError (DirectVerifyCtx E)
  unfolding config_evp_pkey_ctx algo sig_len_ck
  new_direct_verify_ctx mech pkey = do
    fresh ← ok_or (E.evp_pkey_ctx_new pkey) pkey_ctx_init
    started ← ok_or (E.evp_pkey_verify_init fresh) verify_init
    evp_pkey_ctx ← config_evp_pkey_ctx E started mech
    a ← algo E pkey
    len_ck ← sig_len_ck E pkey
    ok (record { evp_pkey_ctx = evp_pkey_ctx; algo = a; sig_len_ck = len_ck })

  abbrev with_ctx : DigestVerifyCtx E → OpCtxState → E.EvpCtx → VerifyCtx E
  with_ctx ctx s evp_md_ctx =
      by_digest (record {
        state = s;
        evp_md_ctx = evp_md_ctx;
        algo = ctx.algo;
        sig_len_ck = ctx.sig_len_ck;
      })

  abbrev entered :
      DigestVerifyCtx E
      → Result CryptoError OpCtxState
      → VerifyCtx E × Result CryptoError (Unit {0})
  entered ctx (ok s) = (with_ctx ctx s ctx.evp_md_ctx, ok tt)
  entered ctx (err e) = (by_digest ctx, err e)

  -- VerifyCtx::enter_state
  unfoldable pub verify_enter_state :
      VerifyCtx E → OpCtxState → VerifyCtx E × Result CryptoError (Unit {0})
  unfolding enter_state enter_direct
  verify_enter_state (by_digest ctx) s = entered ctx (enter_state ctx.state s)
  verify_enter_state (directly ctx) s = (directly ctx, enter_direct s)

  abbrev updated :
      DigestVerifyCtx E → OpCtxState → E.EvpCtx × Bool → VerifyCtx E × Result CryptoError (Unit {0})
  updated ctx s (evp_md_ctx, good) =
      (with_ctx ctx s evp_md_ctx, if good then ok tt else err digest_verify_update)

  abbrev update_entered :
      DigestVerifyCtx E
      → Bytes
      → Result CryptoError OpCtxState
      → VerifyCtx E × Result CryptoError (Unit {0})
  update_entered ctx data_in (err e) = (by_digest ctx, err e)
  update_entered ctx data_in (ok s) =
      updated ctx s (E.evp_digest_verify_update ctx.evp_md_ctx data_in)

  -- VerifyCtx::update
  unfoldable pub verify_ctx_update :
      VerifyCtx E → Bytes → VerifyCtx E × Result CryptoError (Unit {0})
  unfolding enter_state
  verify_ctx_update (by_digest ctx) data_in =
      update_entered ctx data_in (enter_state ctx.state multipart_active)
  verify_ctx_update (directly ctx) data_in = (directly ctx, err operation_active)

  -- VerifyCtx::finalize
  unfoldable pub verify_finalize : VerifyCtx E → Bytes → Result CryptoError (Unit {0})
  unfolding enter_state
  verify_finalize (by_digest ctx) signature = do
    s ← enter_state ctx.state multipart_ready
    guard (E.evp_digest_verify_final ctx.evp_md_ctx signature) digest_verify_final
  verify_finalize (directly ctx) signature = err operation_active

  -- DirectVerifyCtx::verify
  unfoldable pub verify_directly : DirectVerifyCtx E → Bytes → Bytes → Result CryptoError (Unit {0})
  unfolding ecdsa_sig_ckrs_to_der
  verify_directly ctx data_in signature = do
    crypto_sig ← from_ck_sig E ctx.algo signature
    guard (E.evp_pkey_verify ctx.evp_pkey_ctx crypto_sig data_in) direct_verify

  -- VerifyCtx::verify
  unfoldable pub verify_once : VerifyCtx E → Bytes → Bytes → Result CryptoError (Unit {0})
  unfolding enter_state ecdsa_sig_ckrs_to_der verify_directly
  verify_once (by_digest ctx) data_in signature = do
    s ← enter_state ctx.state singlepart_active
    crypto_sig ← from_ck_sig E ctx.algo signature
    guard (E.evp_digest_verify ctx.evp_md_ctx crypto_sig data_in) digest_verify
  verify_once (directly ctx) data_in signature = verify_directly ctx data_in signature

  -- VerifyCtx::verify_sig_len_ck
  abbrev pub verify_sig_len_ck : VerifyCtx E → ℕ → Bool
  verify_sig_len_ck (by_digest ctx) len_ck = len_ck == ctx.sig_len_ck
  verify_sig_len_ck (directly ctx) len_ck = len_ck == ctx.sig_len_ck
