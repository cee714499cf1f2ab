-- ===== src/P11/Examples/Sessions.antt =====
-- The theorems on sessions and on the C functions of vtok_p11/src/api at concrete inputs, with those
-- on the contexts of vtok_p11/src/crypto.
use aws_nitro_enclaves_acm.Prelude.{
  ℕ, ◌+◌, ◌≡◌, refl, true, false, none, some, [], ◌∷◌, length, Bytes, ok, arith,
}
use aws_nitro_enclaves_acm.P11.Ck.Mech
use aws_nitro_enclaves_acm.P11.Mechanism.{Mechanism, RawMechanism, rsa_pkcs, from_ckraw_mech}
use aws_nitro_enclaves_acm.P11.OpCtx.{initialized}
use aws_nitro_enclaves_acm.P11.Crypto.Evp.{Evp}
use aws_nitro_enclaves_acm.P11.Session.{
  Session, EnumCtx, ro_user, digest_init, sign_init, verify_init,
}
use aws_nitro_enclaves_acm.P11.Session.Chunks
use aws_nitro_enclaves_acm.P11.Session.Init
use aws_nitro_enclaves_acm.P11.Crypto.Pkey.{rsa}
use aws_nitro_enclaves_acm.P11.Crypto.Sign
use aws_nitro_enclaves_acm.P11.Error.{key_handle_invalid, ck_rv}
use aws_nitro_enclaves_acm.P11.Ck.Rv
use aws_nitro_enclaves_acm.P11.Api.Output.{OutBuf, only}
use aws_nitro_enclaves_acm.P11.Api.Query.{Fits}
use aws_nitro_enclaves_acm.P11.Api.Operations.{digest, sign_final}
use aws_nitro_enclaves_acm.P11.Api.Multipart
use aws_nitro_enclaves_acm.P11.Api.Calls
use aws_nitro_enclaves_acm.P11.Device.{open_session, session_mut, reload_slots}
use aws_nitro_enclaves_acm.P11.Object.{new_rsa_private_key}
use aws_nitro_enclaves_acm.Prelude.{take, drop, err, ◌^◌, ◌-◌}
use aws_nitro_enclaves_acm.P11.Session.{next_chunk}
use aws_nitro_enclaves_acm.Prelude.{from_utf8, ◌++◌, length-append}
use aws_nitro_enclaves_acm.P11.Ck.Flags
use aws_nitro_enclaves_acm.P11.Api.Entry.{c_login}
use aws_nitro_enclaves_acm.P11.Api.Authentic.{HasPin, c_login-HasPin}
use aws_nitro_enclaves_acm.P11.Crypto.Digest.{
  DigestCtx, new_digest_ctx, digest_finalize, digest_once,
}
use aws_nitro_enclaves_acm.P11.Crypto.Parts.{DigestLaws, concat, value_of, feed, finalize-feed}
use aws_nitro_enclaves_acm.P11.Examples.{key_info, pin, with_one, world, toy}
use aws_nitro_enclaves_acm.P11.Api.Begin.{c_digest_init, c_sign_init, init_with, lock_session_mut}

abbrev user_session : Session toy
user_session = record {
  slot_id = 0;
  state = ro_user;
  db = record { token_pin = pin; objects = new_rsa_private_key key_info ∷ [] };
  enum_ctx = none;
  digest_ctx =
      some
        (record { state = initialized; digest_len = 2; evp_ctx = 0; mech_type = Mech.ckm_sha256 });
  sign_ctx = none;
  verify_ctx = none;
  decrypt_ctx = none;
  encrypt_ctx = none;
}

abbrev digest_call : Calls.Call
digest_call = Calls.c_digest (some (10 ∷ 20 ∷ []))

abbrev ask : OutBuf
ask = record { len = some 0; has_buf = false }

abbrev room : OutBuf
room = record { len = some 8; has_buf = true }

digest_call-ask : (Calls.perform toy digest_call ask user_session).0.new_len ≡ some 2
unfolding digest
digest_call-ask = refl

digest_call-room : (Calls.perform toy digest_call room user_session).0.written ≡ some (10 ∷ 20 ∷ [])
unfolding digest
digest_call-room = refl

perform-query_example :
    Calls.perform toy digest_call room (Calls.perform toy digest_call ask user_session).1
    ≡ Calls.perform toy digest_call room user_session
perform-query_example = Calls.perform-query toy digest_call room user_session 0 2 digest_call-ask

perform-Fits_example : Fits (some 8) true (10 ∷ 20 ∷ [])
perform-Fits_example =
    Calls.perform-Fits toy digest_call room user_session (10 ∷ 20 ∷ []) digest_call-room

abbrev plain : Mechanism
plain = rsa_pkcs none

start-plain : (Init.start Init.signing plain 0 user_session).0 ≡ ok tt
unfolding sign_init new_rsa_private_key
start-plain = refl

start-Ready_example : Init.Ready Init.signing plain 0 user_session
start-Ready_example = Init.start-Ready Init.signing plain 0 user_session start-plain

start-missing : (Init.start Init.verifying plain 5 user_session).0 ≡ err key_handle_invalid
unfolding verify_init
start-missing = refl

start-error_unchanged_example : (Init.start Init.verifying plain 5 user_session).1 ≡ user_session
start-error_unchanged_example =
    Init.start-error_unchanged Init.verifying plain 5 user_session key_handle_invalid start-missing

abbrev signing_session : Session toy
signing_session = record user_session {
  sign_ctx = some (
      Sign.by_digest
        (record { state = initialized; evp_md_ctx = 0; algo = rsa; sig_len = 2; sig_len_ck = 2 }));
}

sign_final-sign_update_example :
    ((sign_final toy room (Multipart.sign_update toy (some (1 ∷ [])) signing_session).1).0
      ≡ only Rv.ckr_operation_not_initialized)
    × ((Multipart.sign_update toy
          (some (2 ∷ []))
          (Multipart.sign_update toy (some (1 ∷ [])) signing_session).1).0
        ≡ Rv.ckr_operation_not_initialized)
sign_final-sign_update_example =
    Multipart.sign_final-sign_update toy (1 ∷ []) (2 ∷ []) room signing_session

abbrev enumeration : EnumCtx
enumeration = record { handles = 4 ∷ 5 ∷ 6 ∷ []; index = 1 }

chunks-take_example :
    Chunks.chunks (1 ∷ 3 ∷ []) enumeration
    ≡ some (take (Chunks.sum (1 ∷ 3 ∷ [])) (drop 1 (4 ∷ 5 ∷ 6 ∷ [])))
chunks-take_example =
    Chunks.chunks-take (1 ∷ 3 ∷ []) enumeration (omega arith) (omega arith, (omega arith, tt))

-- The largest count wraps around.
chunk_panics : next_chunk (2 ^ 64 - 1) enumeration ≡ none
unfolding next_chunk
chunk_panics = refl

c_login-with_one : (c_login 20 1 1 (some pin) (some with_one)).0 ≡ Rv.ckr_ok
unfolding c_login open_session
c_login-with_one = refl

c_login-HasPin_example :
    (1 ≡ Flags.cku_user) × (from_utf8 pin ≡ some pin) × HasPin 20 1 pin with_one
c_login-HasPin_example = c_login-HasPin 20 1 1 pin with_one c_login-with_one

-- A libcrypto whose digest of data is its length, of one byte.
abbrev counting : Evp
counting = record toy {
  evp_digest_init_ex = λ c md. some 0;
  evp_digest_final_ex = λ c. some (c ∷ []);
  evp_digest = λ md data_in. some (length data_in ∷ []);
  evp_md_size = λ md. 1;
}

length-append_add : (c : ℕ) (a b : Bytes) → c + length a + length b ≡ c + length (a ++ b)
length-append_add c a b = omega (arith, length-append a b)

counting-DigestLaws : DigestLaws counting
counting-DigestLaws = record {
  update_ok = λ c d. refl;
  update_update = λ c a b. length-append_add c a b;
  digest_is = λ fresh c md d h. ground arith;
  size_is = λ md d v h. ground arith;
}

abbrev counting_ctx : DigestCtx counting
counting_ctx = record {
  state = initialized;
  digest_len = 1;
  evp_ctx = 0;
  mech_type = Mech.ckm_sha256;
}

new_digest_ctx-counting : new_digest_ctx counting Mech.ckm_sha256 ≡ ok counting_ctx
unfolding new_digest_ctx
new_digest_ctx-counting = refl

finalize-feed_example :
    value_of (digest_finalize counting (feed counting counting_ctx ((1 ∷ 2 ∷ []) ∷ (3 ∷ []) ∷ [])))
    ≡ value_of (digest_once counting counting_ctx (concat ((1 ∷ 2 ∷ []) ∷ (3 ∷ []) ∷ [])))
finalize-feed_example =
    finalize-feed counting counting-DigestLaws Mech.ckm_sha256 counting_ctx (1 ∷ 2 ∷ [])
      ((3 ∷ []) ∷ []) new_digest_ctx-counting

abbrev raw_sha256 : RawMechanism
raw_sha256 = record { type = Mech.ckm_sha256; parameter = none; parameter_len = 0 }

abbrev raw_rsa_pkcs : RawMechanism
raw_rsa_pkcs = record { type = Mech.ckm_rsa_pkcs; parameter = none; parameter_len = 0 }

digest_starts : (c_digest_init world 1 (some raw_sha256) (some with_one)).0 ≡ Rv.ckr_ok
unfolding c_digest_init lock_session_mut session_mut reload_slots digest_init new_digest_ctx
    open_session
digest_starts = refl

sign_needs_login :
    (c_sign_init world 1 (some raw_rsa_pkcs) 0 (some with_one)).0 ≡ Rv.ckr_user_not_logged_in
unfolding init_with lock_session_mut session_mut reload_slots sign_init from_ckraw_mech open_session
    ck_rv
sign_needs_login = refl
