-- ===== src/P11/OpCtx.antt =====
-- vtok_p11/src/crypto/mod.rs, `OpCtxState`, and the `enter_state` of the digest contexts.
pub mod Reach
use aws_nitro_enclaves_acm.Prelude.{Result, ok, err}
use aws_nitro_enclaves_acm.P11.Error.{CryptoError, operation_active}

pub data OpCtxState : Type 0 where
  initialized singlepart_active multipart_active multipart_ready : OpCtxState

-- The new state, or the error that leaves the state alone.
unfoldable pub enter_state : OpCtxState → OpCtxState → Result CryptoError OpCtxState
enter_state initialized s = ok s
enter_state singlepart_active singlepart_active = ok singlepart_active
enter_state singlepart_active _ = err operation_active
enter_state multipart_active multipart_active = ok multipart_active
enter_state multipart_active multipart_ready = ok multipart_ready
enter_state multipart_active _ = err operation_active
enter_state multipart_ready multipart_ready = ok multipart_ready
enter_state multipart_ready _ = err operation_active

-- The `enter_state` of the contexts that work in a single part.
unfoldable pub enter_direct : OpCtxState → Result CryptoError (Unit {0})
enter_direct singlepart_active = ok tt
enter_direct _ = err operation_active
