-- ===== src/P11/Crypto/Crypt.antt =====
-- vtok_p11/src/crypto/encrypt.rs and decrypt.rs: both work in a single part.
use aws_nitro_enclaves_acm.Prelude.{ℕ, Bytes, Result, ok, ok_or, ◌>>=◌}
use aws_nitro_enclaves_acm.P11.Error.{
  CryptoError, pkey_ctx_init, decrypt_init, direct_decrypt, encrypt_init, encrypt_failed,
}
use aws_nitro_enclaves_acm.P11.Mechanism.{Mechanism}
use aws_nitro_enclaves_acm.P11.Crypto.Evp.{Evp}
use aws_nitro_enclaves_acm.P11.Crypto.Pkey.{config_evp_pkey_ctx}

pub record DirectEncryptCtx (E : Evp) : Type 0 where
  pub evp_pkey_ctx : E.EvpCtx
  pub encrypt_len : ℕ

pub record DirectDecryptCtx (E : Evp) : Type 0 where
  pub evp_pkey_ctx : E.EvpCtx
  pub decrypt_len : ℕ

module _ (E : Evp) where
  -- DirectEncryptCtx::new
  unfoldable pub new_encrypt_ctx : Mechanism → E.EvpPkey → Result CryptoError (DirectEncryptCtx E)
  unfolding config_evp_pkey_ctx
  new_encrypt_ctx mech key = do
    fresh ← ok_or (E.evp_pkey_ctx_new key) pkey_ctx_init
    started ← ok_or (E.evp_pkey_encrypt_init fresh) encrypt_init
    evp_pkey_ctx ← config_evp_pkey_ctx E started mech
    ok (record { evp_pkey_ctx = evp_pkey_ctx; encrypt_len = E.evp_pkey_size key })

  -- DirectEncryptCtx::encrypt
  unfoldable pub encrypt_once : DirectEncryptCtx E → Bytes → Result CryptoError Bytes
  encrypt_once ctx data_in =
      ok_or (E.evp_pkey_encrypt ctx.evp_pkey_ctx ctx.encrypt_len data_in) encrypt_failed

  -- DirectDecryptCtx::new
  unfoldable pub new_decrypt_ctx : Mechanism → E.EvpPkey → Result CryptoError (DirectDecryptCtx E)
  unfolding config_evp_pkey_ctx
  new_decrypt_ctx mech key = do
    fresh ← ok_or (E.evp_pkey_ctx_new key) pkey_ctx_init
    started ← ok_or (E.evp_pkey_decrypt_init fresh) decrypt_init
    evp_pkey_ctx ← config_evp_pkey_ctx E started mech
    ok (record { evp_pkey_ctx = evp_pkey_ctx; decrypt_len = E.evp_pkey_size key })

  -- DirectDecryptCtx::decrypt
  unfoldable pub decrypt_once : DirectDecryptCtx E → Bytes → Result CryptoError Bytes
  decrypt_once ctx encrypted_data =
      ok_or (E.evp_pkey_decrypt ctx.evp_pkey_ctx ctx.decrypt_len encrypted_data) direct_decrypt
