-- ===== src/P11/Api/Calls.antt =====
-- The six calls of the C functions that give bytes in a buffer of the caller.
use aws_nitro_enclaves_acm.Prelude.{ℕ, ◌≡◌, false, Option, some, Bytes}
use aws_nitro_enclaves_acm.P11.OpCtx.{singlepart_active, multipart_ready}
use aws_nitro_enclaves_acm.P11.Crypto.Evp.{Evp}
use aws_nitro_enclaves_acm.P11.Crypto.Digest.{digest_finalize, digest_once}
use aws_nitro_enclaves_acm.P11.Crypto.Sign
use aws_nitro_enclaves_acm.P11.Crypto.Crypt.{encrypt_once, decrypt_once}
use aws_nitro_enclaves_acm.P11.Session.{Session}
use aws_nitro_enclaves_acm.P11.Api.Output.{OutBuf, Reply}
use aws_nitro_enclaves_acm.P11.Api.Query.{Fits, produce-query, produce-Fits}
use aws_nitro_enclaves_acm.P11.Api.Operations.{
  with_input, sign_op, digest_op, encrypt_op, decrypt_op, sign, sign_final, digest, digest_final,
  encrypt, decrypt, sign_op-IsLawful, digest_op-IsLawful, encrypt_op-IsLawful, decrypt_op-IsLawful,
}

-- A call, with its input where it has one, none where the input's pointer is null.
pub data Call : Type 0 where
  c_sign c_digest c_encrypt c_decrypt : Option Bytes → Call
  c_sign_final c_digest_final : Call

module _ (E : Evp) where
  abbrev pub perform : Call → OutBuf → Session E → Reply × Session E
  perform (c_sign data_in) = sign E data_in
  perform (c_digest data_in) = digest E data_in
  perform (c_encrypt data_in) = encrypt E data_in
  perform (c_decrypt data_in) = decrypt E data_in
  perform c_sign_final = sign_final E
  perform c_digest_final = digest_final E

  -- To ask for the length of the output first, with a null buffer, changes nothing for the same call
  -- when it follows: if the length was given, the reply of that call and the session after it are
  -- those of the call alone.
  pub perform-query :
      (call : Call) (out : OutBuf) (s : Session E) (user_len n : ℕ)
      → (perform call (record { len = some user_len; has_buf = false }) s).0.new_len ≡ some n
      → perform call out (perform call (record { len = some user_len; has_buf = false }) s).1
        ≡ perform call out s
  unfolding sign sign_final digest digest_final encrypt decrypt
  perform-query (c_sign d) out s l n h =
      produce-query (sign_op E) (sign_op-IsLawful E) singlepart_active
        (with_input (Sign.sign_once E) d) out s l n h
  perform-query (c_digest d) out s l n h =
      produce-query (digest_op E) (digest_op-IsLawful E) singlepart_active
        (with_input (digest_once E) d) out s l n h
  perform-query (c_encrypt d) out s l n h =
      produce-query (encrypt_op E) (encrypt_op-IsLawful E) singlepart_active
        (with_input (encrypt_once E) d) out s l n h
  perform-query (c_decrypt d) out s l n h =
      produce-query (decrypt_op E) (decrypt_op-IsLawful E) singlepart_active
        (with_input (decrypt_once E) d) out s l n h
  perform-query c_sign_final out s l n h =
      produce-query (sign_op E) (sign_op-IsLawful E) multipart_ready (some (Sign.sign_finalize E))
        out s l n h
  perform-query c_digest_final out s l n h =
      produce-query (digest_op E) (digest_op-IsLawful E) multipart_ready (some (digest_finalize E))
        out s l n h

  -- A call writes only to a buffer that is there, with its length, and no more than it has room for.
  pub perform-Fits :
      (call : Call) (out : OutBuf) (s : Session E) (v : Bytes)
      → (perform call out s).0.written ≡ some v
      → Fits out.len out.has_buf v
  unfolding sign sign_final digest digest_final encrypt decrypt
  perform-Fits (c_sign d) out s v h =
      produce-Fits (sign_op E) singlepart_active (with_input (Sign.sign_once E) d) out s v h
  perform-Fits (c_digest d) out s v h =
      produce-Fits (digest_op E) singlepart_active (with_input (digest_once E) d) out s v h
  perform-Fits (c_encrypt d) out s v h =
      produce-Fits (encrypt_op E) singlepart_active (with_input (encrypt_once E) d) out s v h
  perform-Fits (c_decrypt d) out s v h =
      produce-Fits (decrypt_op E) singlepart_active (with_input (decrypt_once E) d) out s v h
  perform-Fits c_sign_final out s v h =
      produce-Fits (sign_op E) multipart_ready (some (Sign.sign_finalize E)) out s v h
  perform-Fits c_digest_final out s v h =
      produce-Fits (digest_op E) multipart_ready (some (digest_finalize E)) out s v h
