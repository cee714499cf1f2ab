-- ===== src/P11/Api/Operations.antt =====
-- vtok_p11/src/api/sign.rs, digest.rs, encrypt.rs and decrypt.rs: the calls that give bytes.
use aws_nitro_enclaves_acm.Prelude.{
  ◌≡◌, refl, sym, subst, ap, Result-cases, inl, inr, Option, none, some, Bytes, Result, ok, arith,
}
use aws_nitro_enclaves_acm.P11.Error.{CryptoError}
use aws_nitro_enclaves_acm.P11.OpCtx.{
  OpCtxState, initialized, singlepart_active, multipart_active, multipart_ready, enter_state,
  enter_direct,
}
use aws_nitro_enclaves_acm.P11.Crypto.Evp.{Evp}
use aws_nitro_enclaves_acm.P11.Crypto.Digest.{
  DigestCtx, digest_enter_state, digest_finalize, digest_once,
}
use aws_nitro_enclaves_acm.P11.Crypto.Digest
use aws_nitro_enclaves_acm.P11.Crypto.Sign
use aws_nitro_enclaves_acm.P11.Crypto.Crypt.{
  DirectEncryptCtx, DirectDecryptCtx, encrypt_once, decrypt_once,
}
use aws_nitro_enclaves_acm.P11.Session.{Session}
use aws_nitro_enclaves_acm.P11.Api.Output.{OutBuf, Reply, Op, produce}
use aws_nitro_enclaves_acm.P11.Api.Query.{IsLawful}

abbrev pub with_input {ℓ} :
    {C : Type ℓ}
    → (C → Bytes → Result CryptoError Bytes)
    → Option Bytes
    → Option (C → Result CryptoError Bytes)
with_input run none = none
with_input run (some data_in) = some (λ ctx. run ctx data_in)

enter_state-target : (s st s' : OpCtxState) → enter_state s st ≡ ok s' → s' ≡ st
unfolding enter_state
enter_state-target initialized initialized s' h = ground arith
enter_state-target initialized singlepart_active s' h = ground arith
enter_state-target initialized multipart_active s' h = ground arith
enter_state-target initialized multipart_ready s' h = ground arith
enter_state-target singlepart_active initialized s' h = ground arith
enter_state-target singlepart_active singlepart_active s' h = ground arith
enter_state-target singlepart_active multipart_active s' h = ground arith
enter_state-target singlepart_active multipart_ready s' h = ground arith
enter_state-target multipart_active initialized s' h = ground arith
enter_state-target multipart_active singlepart_active s' h = ground arith
enter_state-target multipart_active multipart_active s' h = ground arith
enter_state-target multipart_active multipart_ready s' h = ground arith
enter_state-target multipart_ready initialized s' h = ground arith
enter_state-target multipart_ready singlepart_active s' h = ground arith
enter_state-target multipart_ready multipart_active s' h = ground arith
enter_state-target multipart_ready multipart_ready s' h = ground arith

enter_state_self : (s : OpCtxState) → enter_state s s ≡ ok s
unfolding enter_state
enter_state_self initialized = refl
enter_state_self singlepart_active = refl
enter_state_self multipart_active = refl
enter_state_self multipart_ready = refl

enter_state-again : (s st s' : OpCtxState) → enter_state s st ≡ ok s' → enter_state s' st ≡ ok s'
enter_state-again s st s' h =
    let same = enter_state-target s st s' h in
    subst (λ x. enter_state s' x ≡ ok s') same (enter_state_self s')

module _ (E : Evp) where
  abbrev pub sign_op : Op (Session E)
  sign_op = record {
    Ctx = Sign.SignCtx E;
    ctx_of = λ s. s.sign_ctx;
    put = λ c s. record s { sign_ctx = c };
    enter = Sign.sign_enter_state E;
    out_len = Sign.ctx_sig_len_ck E;
    on_null = λ s. record s { sign_ctx = none };
  }

  abbrev pub digest_op : Op (Session E)
  digest_op = record {
    Ctx = DigestCtx E;
    ctx_of = λ s. s.digest_ctx;
    put = λ c s. record s { digest_ctx = c };
    enter = digest_enter_state E;
    out_len = λ c. c.digest_len;
    on_null = λ s. record s { digest_ctx = none };
  }

  abbrev pub decrypt_op : Op (Session E)
  decrypt_op = record {
    Ctx = DirectDecryptCtx E;
    ctx_of = λ s. s.decrypt_ctx;
    put = λ c s. record s { decrypt_ctx = c };
    enter = λ c st. (c, enter_direct st);
    out_len = λ c. c.decrypt_len;
    on_null = λ s. record s { decrypt_ctx = none };
  }

  -- Where a pointer is null, C_Encrypt drops the signing context.
  abbrev pub encrypt_op : Op (Session E)
  encrypt_op = record {
    Ctx = DirectEncryptCtx E;
    ctx_of = λ s. s.encrypt_ctx;
    put = λ c s. record s { encrypt_ctx = c };
    enter = λ c st. (c, enter_direct st);
    out_len = λ c. c.encrypt_len;
    on_null = λ s. record s { sign_ctx = none };
  }

  -- C_Sign
  unfoldable pub sign : Option Bytes → OutBuf → Session E → Reply × Session E
  unfolding produce Sign.sign_enter_state Sign.sign_once
  sign data_in = produce sign_op singlepart_active (with_input (Sign.sign_once E) data_in)

  -- C_SignFinal
  unfoldable pub sign_final : OutBuf → Session E → Reply × Session E
  unfolding produce Sign.sign_enter_state Sign.sign_finalize
  sign_final = produce sign_op multipart_ready (some (Sign.sign_finalize E))

  -- C_Digest
  unfoldable pub digest : Option Bytes → OutBuf → Session E → Reply × Session E
  unfolding produce digest_enter_state digest_once
  digest data_in = produce digest_op singlepart_active (with_input (digest_once E) data_in)

  -- C_DigestFinal
  unfoldable pub digest_final : OutBuf → Session E → Reply × Session E
  unfolding produce digest_enter_state digest_finalize
  digest_final = produce digest_op multipart_ready (some (digest_finalize E))

  -- C_Encrypt
  unfoldable pub encrypt : Option Bytes → OutBuf → Session E → Reply × Session E
  unfolding produce encrypt_once enter_direct
  encrypt data_in = produce encrypt_op singlepart_active (with_input (encrypt_once E) data_in)

  -- C_Decrypt
  unfoldable pub decrypt : Option Bytes → OutBuf → Session E → Reply × Session E
  unfolding produce decrypt_once enter_direct
  decrypt data_in = produce decrypt_op singlepart_active (with_input (decrypt_once E) data_in)

  sign_enter_again :
      (c c' : Sign.SignCtx E) (st : OpCtxState)
      → Sign.sign_enter_state E c st ≡ (c', ok tt)
      → Sign.sign_enter_state E c' st ≡ (c', ok tt)
  unfolding Sign.sign_enter_state
  sign_enter_again (Sign.by_digest ctx) c' st h = elim (Result-cases (enter_state ctx.state st)) [
    | inr (e, failed) ↦ ground arith
    | inl (s, good) ↦
        let again = enter_state-again ctx.state st s good in
        let is : c' ≡ Sign.by_digest (record ctx { state = s }) = ground arith in
        subst (λ x. Sign.sign_enter_state E x st ≡ (x, ok tt)) (sym is)
          (ap (Sign.entered E (record ctx { state = s })) again)
  ]
  sign_enter_again (Sign.directly ctx) c' st h =
      let is : c' ≡ Sign.directly ctx = ground arith in
      subst (λ x. Sign.sign_enter_state E x st ≡ (x, ok tt)) (sym is) (ground (arith, h))

  digest_enter_again :
      (c c' : DigestCtx E) (st : OpCtxState)
      → digest_enter_state E c st ≡ (c', ok tt)
      → digest_enter_state E c' st ≡ (c', ok tt)
  unfolding digest_enter_state
  digest_enter_again c c' st h = elim (Result-cases (enter_state c.state st)) [
    | inr (e, failed) ↦ ground arith
    | inl (s, good) ↦
        let again = enter_state-again c.state st s good in
        let is : c' ≡ record c { state = s } = ground arith in
        subst (λ x. digest_enter_state E x st ≡ (x, ok tt)) (sym is)
          (ap (Digest.entered E (record c { state = s })) again)
  ]

  pub sign_op-IsLawful : IsLawful sign_op
  unfolding Sign.sign_enter_state
  sign_op-IsLawful = record {
    ctx_of_put = λ c s. refl;
    put_put = λ c c' s. refl;
    enter_enter = sign_enter_again;
  }

  pub digest_op-IsLawful : IsLawful digest_op
  unfolding digest_enter_state
  digest_op-IsLawful = record {
    ctx_of_put = λ c s. refl;
    put_put = λ c c' s. refl;
    enter_enter = digest_enter_again;
  }

  pub encrypt_op-IsLawful : IsLawful encrypt_op
  encrypt_op-IsLawful = record {
    ctx_of_put = λ c s. refl;
    put_put = λ c c' s. refl;
    enter_enter = λ c c' st h. ground arith;
  }

  pub decrypt_op-IsLawful : IsLawful decrypt_op
  decrypt_op-IsLawful = record {
    ctx_of_put = λ c s. refl;
    put_put = λ c c' s. refl;
    enter_enter = λ c c' st h. ground arith;
  }
