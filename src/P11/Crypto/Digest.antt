-- ===== src/P11/Crypto/Digest.antt =====
-- vtok_p11/src/crypto/digest.rs. An operation that consumes the context gives its result only.
use aws_nitro_enclaves_acm.Prelude.{ℕ, Bool, Bytes, Result, ok, err, ok_or, ◌>>=◌, if◌then◌else◌}
use aws_nitro_enclaves_acm.P11.Error.{
  CryptoError, digest_failed, digest_init, digest_final, digest_update, general_failure,
}
use aws_nitro_enclaves_acm.P11.OpCtx.{
  OpCtxState, initialized, singlepart_active, multipart_active, multipart_ready, enter_state,
}
use aws_nitro_enclaves_acm.P11.Crypto.Evp.{Evp}
use aws_nitro_enclaves_acm.P11.Crypto.Pkey.{mech_type_to_evp_md, into_zeros}

pub record DigestCtx (E : Evp) : Type 0 where
  pub state : OpCtxState
  pub digest_len : ℕ
  pub evp_ctx : E.EvpCtx
  pub mech_type : ℕ

module _ (E : Evp) where
  abbrev in_state : OpCtxState → DigestCtx E → DigestCtx E
  in_state s ctx = record {
    state = s;
    digest_len = ctx.digest_len;
    evp_ctx = ctx.evp_ctx;
    mech_type = ctx.mech_type;
  }

  abbrev pub entered :
      DigestCtx E → Result CryptoError OpCtxState → DigestCtx E × Result CryptoError (Unit {0})
  entered ctx (ok s) = (in_state s ctx, ok tt)
  entered ctx (err e) = (ctx, err e)

  -- DigestCtx::enter_state
  unfoldable pub digest_enter_state :
      DigestCtx E → OpCtxState → DigestCtx E × Result CryptoError (Unit {0})
  unfolding enter_state
  digest_enter_state ctx s = entered ctx (enter_state ctx.state s)

  -- DigestCtx::new
  unfoldable pub new_digest_ctx : ℕ → Result CryptoError (DigestCtx E)
  unfolding mech_type_to_evp_md
  new_digest_ctx mech_type = do
    evp_md ← mech_type_to_evp_md E mech_type
    fresh ← ok_or E.evp_md_ctx_new general_failure
    evp_ctx ← ok_or (E.evp_digest_init_ex fresh evp_md) digest_init
    ok (record {
      state = initialized;
      digest_len = E.evp_md_size evp_md;
      evp_ctx = evp_ctx;
      mech_type = mech_type;
    })

  abbrev hashed : DigestCtx E → E.EvpCtx × Bool → DigestCtx E × Result CryptoError (Unit {0})
  hashed ctx (evp_ctx', good) = (
    record {
      state = multipart_active;
      digest_len = ctx.digest_len;
      evp_ctx = evp_ctx';
      mech_type = ctx.mech_type;
    },
    if good then ok tt else err digest_update,
  )

  abbrev pub update_entered :
      Bytes
      → DigestCtx E × Result CryptoError (Unit {0})
      → DigestCtx E × Result CryptoError (Unit {0})
  update_entered data_in (ctx, err e) = (ctx, err e)
  update_entered data_in (ctx, ok _) = hashed ctx (E.evp_digest_update ctx.evp_ctx data_in)

  -- DigestCtx::update
  unfoldable pub digest_ctx_update :
      DigestCtx E → Bytes → DigestCtx E × Result CryptoError (Unit {0})
  unfolding digest_enter_state
  digest_ctx_update ctx data_in = update_entered data_in (digest_enter_state ctx multipart_active)

  -- DigestCtx::finalize
  unfoldable pub digest_finalize : DigestCtx E → Result CryptoError Bytes
  unfolding digest_enter_state
  digest_finalize ctx = do
    entered_ ← (digest_enter_state ctx multipart_ready).1
    ok_or (E.evp_digest_final_ex ctx.evp_ctx) digest_final

  -- DigestCtx::digest
  unfoldable pub digest_once : DigestCtx E → Bytes → Result CryptoError Bytes
  unfolding digest_enter_state mech_type_to_evp_md
  digest_once ctx data_in = do
    entered_ ← (digest_enter_state ctx singlepart_active).1
    evp_md ← mech_type_to_evp_md E ctx.mech_type
    md ← ok_or (E.evp_digest evp_md data_in) digest_failed
    ok (into_zeros ctx.digest_len md)
