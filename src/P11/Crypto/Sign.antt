-- ===== src/P11/Crypto/Sign.antt =====
-- vtok_p11/src/crypto/sign.rs. A `Box<dyn SignCtx>` is one of its two implementations; an operation
-- that consumes the box gives its result only.
use aws_nitro_enclaves_acm.Prelude.{
  ℕ, Bool, Bytes, Result, ok, err, ok_or, guard, ◌>>=◌, ◌>>◌, if◌then◌else◌,
}
use aws_nitro_enclaves_acm.P11.Error.{
  CryptoError, digest_sign, digest_sign_final, digest_sign_update, direct_sign, md_ctx_init,
  general_failure, operation_active, pkey_ctx_init, sign_init,
}
use aws_nitro_enclaves_acm.P11.Mechanism.{Mechanism, ck_type}
use aws_nitro_enclaves_acm.P11.OpCtx.{
  OpCtxState, initialized, singlepart_active, multipart_active, multipart_ready, enter_state,
  enter_direct,
}
use aws_nitro_enclaves_acm.P11.Crypto.Evp.{Evp}
use aws_nitro_enclaves_acm.P11.Crypto.Pkey.{
  KeyAlgo, algo, sig_len, sig_len_ck, mech_type_to_evp_md, config_evp_pkey_ctx,
  ecdsa_sig_der_to_ckrs, to_ck_sig, into_zeros,
}

pub record DigestSignCtx (E : Evp) : Type 0 where
  pub state : OpCtxState
  pub evp_md_ctx : E.EvpCtx
  pub algo : KeyAlgo
  pub sig_len : ℕ
  pub sig_len_ck : ℕ

pub record DirectSignCtx (E : Evp) : Type 0 where
  pub evp_pkey_ctx : E.EvpCtx
  pub algo : KeyAlgo
  pub sig_len : ℕ
  pub sig_len_ck : ℕ

pub data SignCtx (E : Evp) : Type 0 where
  by_digest : DigestSignCtx E → SignCtx E
  directly : DirectSignCtx E → SignCtx E

module _ (E : Evp) where
  -- DigestSignCtx::new
  unfoldable pub new_digest_sign_ctx : Mechanism → E.EvpPkey → Result CryptoError (DigestSignCtx E)
  unfolding mech_type_to_evp_md config_evp_pkey_ctx algo sig_len sig_len_ck ck_type
  new_digest_sign_ctx mech pkey = do
    fresh ← ok_or E.evp_md_ctx_new md_ctx_init
    evp_md ← mech_type_to_evp_md E (ck_type mech)
    started ← ok_or (E.evp_digest_sign_init fresh evp_md pkey) sign_init
    evp_md_ctx ← config_evp_pkey_ctx E started mech
    a ← algo E pkey
    len ← sig_len E pkey
    len_ck ← sig_len_ck E pkey
    ok (record {
      state = initialized;
      evp_md_ctx = evp_md_ctx;
      algo = a;
      sig_len = len;
      sig_len_ck = len_ck;
    })

  -- DirectSignCtx::new
  unfoldable pub new_direct_sign_ctx : Mechanism → E.EvpPkey → Result CryptoError (DirectSignCtx E)
  unfolding config_evp_pkey_ctx algo sig_len sig_len_ck
  new_direct_sign_ctx mech pkey = do
    fresh ← ok_or (E.evp_pkey_ctx_new pkey) pkey_ctx_init
    started ← ok_or (E.evp_pkey_sign_init fresh) sign_init
    evp_pkey_ctx ← config_evp_pkey_ctx E started mech
    a ← algo E pkey
    len ← sig_len E pkey
    len_ck ← sig_len_ck E pkey
    ok (record { evp_pkey_ctx = evp_pkey_ctx; algo = a; sig_len = len; sig_len_ck = len_ck })

  -- The digest context with a state and a libcrypto context of its own.
  abbrev with_ctx : DigestSignCtx E → OpCtxState → E.EvpCtx → SignCtx E
  with_ctx ctx s evp_md_ctx = by_digest (record {
    state = s;
    evp_md_ctx = evp_md_ctx;
    algo = ctx.algo;
    sig_len = ctx.sig_len;
    sig_len_ck = ctx.sig_len_ck;
  })

  abbrev pub entered :
      DigestSignCtx E → Result CryptoError OpCtxState → SignCtx E × Result CryptoError (Unit {0})
  entered ctx (ok s) = (with_ctx ctx s ctx.evp_md_ctx, ok tt)
  entered ctx (err e) = (by_digest ctx, err e)

  -- SignCtx::enter_state
  unfoldable pub sign_enter_state :
      SignCtx E → OpCtxState → SignCtx E × Result CryptoError (Unit {0})
  unfolding enter_state enter_direct
  sign_enter_state (by_digest ctx) s = entered ctx (enter_state ctx.state s)
  sign_enter_state (directly ctx) s = (directly ctx, enter_direct s)

  abbrev updated :
      DigestSignCtx E → OpCtxState → E.EvpCtx × Bool → SignCtx E × Result CryptoError (Unit {0})
  updated ctx s (evp_md_ctx, good) =
      (with_ctx ctx s evp_md_ctx, if good then ok tt else err digest_sign_update)

  abbrev update_entered :
      DigestSignCtx E
      → Bytes
      → Result CryptoError OpCtxState
      → SignCtx E × Result CryptoError (Unit {0})
  update_entered ctx data_in (err e) = (by_digest ctx, err e)
  update_entered ctx data_in (ok s) =
      updated ctx s (E.evp_digest_sign_update ctx.evp_md_ctx data_in)

  -- SignCtx::update
  unfoldable pub sign_ctx_update : SignCtx E → Bytes → SignCtx E × Result CryptoError (Unit {0})
  unfolding enter_state
  sign_ctx_update (by_digest ctx) data_in =
      update_entered ctx data_in (enter_state ctx.state multipart_active)
  sign_ctx_update (directly ctx) data_in = (directly ctx, err operation_active)

  -- SignCtx::finalize
  unfoldable pub sign_finalize : SignCtx E → Result CryptoError Bytes
  unfolding enter_state ecdsa_sig_der_to_ckrs
  sign_finalize (by_digest ctx) = do
    s ← enter_state ctx.state multipart_ready
    sig ← ok_or (E.evp_digest_sign_final ctx.evp_md_ctx ctx.sig_len) digest_sign_final
    to_ck_sig E ctx.algo (into_zeros ctx.sig_len sig)
  sign_finalize (directly ctx) = err operation_active

  -- DirectSignCtx::sign
  unfoldable pub sign_directly : DirectSignCtx E → Bytes → Result CryptoError Bytes
  unfolding ecdsa_sig_der_to_ckrs
  sign_directly ctx data_in = do
    sig ← ok_or (E.evp_pkey_sign ctx.evp_pkey_ctx ctx.sig_len data_in) direct_sign
    guard (E.evp_pkey_ctx_has_pkey ctx.evp_pkey_ctx) general_failure
    to_ck_sig E ctx.algo (into_zeros ctx.sig_len sig)

  -- SignCtx::sign
  unfoldable pub sign_once : SignCtx E → Bytes → Result CryptoError Bytes
  unfolding enter_state ecdsa_sig_der_to_ckrs sign_directly
  sign_once (by_digest ctx) data_in = do
    s ← enter_state ctx.state singlepart_active
    sig ← ok_or (E.evp_digest_sign ctx.evp_md_ctx ctx.sig_len data_in) digest_sign
    to_ck_sig E ctx.algo (into_zeros ctx.sig_len sig)
  sign_once (directly ctx) data_in = sign_directly ctx data_in

  -- SignCtx::sig_len_ck
  abbrev pub ctx_sig_len_ck : SignCtx E → ℕ
  ctx_sig_len_ck (by_digest ctx) = ctx.sig_len_ck
  ctx_sig_len_ck (directly ctx) = ctx.sig_len_ck
