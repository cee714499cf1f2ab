-- ===== src/P11/Api/Query.antt =====
-- What holds of every operation that gives bytes.
use aws_nitro_enclaves_acm.Prelude.{
  ℕ, ◌≤◌, Bool, true, false, ltb, ◌≡◌, refl, sym, ap, ◌∙◌, Option, none, some, length, Bytes,
  Result, ok, err, arith, Bool-cases, Option-cases, Result-cases, inl, inr,
}
use aws_nitro_enclaves_acm.P11.Error.{CryptoError}
use aws_nitro_enclaves_acm.P11.OpCtx.{OpCtxState}
use aws_nitro_enclaves_acm.P11.Api.Output.{
  OutBuf, Op, copied, in_slice, out_slice, entered, begun, produce,
}

-- The context that was put is there, the last one put counts, and a state that was entered may be
-- entered again, which changes nothing.
pub record IsLawful {S : Type 0} (op : Op S) : Type 0 where
  pub ctx_of_put : (c : Option op.Ctx) (s : S) → op.ctx_of (op.put c s) ≡ c
  pub put_put : (c c' : Option op.Ctx) (s : S) → op.put c (op.put c' s) ≡ op.put c s
  pub enter_enter :
      (c c' : op.Ctx) (st : OpCtxState) → op.enter c st ≡ (c', ok tt) → op.enter c' st ≡ (c', ok tt)

module _ {S : Type 0} (op : Op S) (lawful : IsLawful op) where
  -- The call for the length alone.
  abbrev pub query : ℕ → OutBuf
  query user_len = record { len = some user_len; has_buf = false }

  -- What the call does once its context has entered the state.
  produce-entered :
      (st : OpCtxState) (run : Option (op.Ctx → Result CryptoError Bytes)) (out : OutBuf) (s : S)
      (c c' : op.Ctx)
      → op.ctx_of s ≡ some c
      → op.enter c st ≡ (c', ok tt)
      → produce op st run out s ≡ out_slice op run c' (op.put (some c') s) out.len out.has_buf
  unfolding produce
  produce-entered st run out s c c' has enters =
      ap (begun op st run out s) has ∙ ap (entered op run out s) enters

  query-again :
      (st : OpCtxState) (run : Option (op.Ctx → Result CryptoError Bytes)) (out : OutBuf) (s : S)
      (c c' : op.Ctx)
      → op.ctx_of s ≡ some c
      → op.enter c st ≡ (c', ok tt)
      → produce op st run out (op.put (some c') s) ≡ produce op st run out s
  query-again st run out s c c' has enters =
      produce-entered st run out (op.put (some c') s) c' c' (lawful.ctx_of_put (some c') s)
        (lawful.enter_enter c c' st enters)
      ∙ ap (λ x. out_slice op run c' x out.len out.has_buf) (lawful.put_put (some c') (some c') s)
      ∙ sym (produce-entered st run out s c c' has enters)

  -- To ask for the length of the output first, with a null buffer, changes nothing for the call that
  -- follows: if the length was given, the reply of that call and the session after it are those of
  -- the call alone.
  pub produce-query :
      (st : OpCtxState) (run : Option (op.Ctx → Result CryptoError Bytes)) (out : OutBuf) (s : S)
      (user_len n : ℕ)
      → (produce op st run (query user_len) s).0.new_len ≡ some n
      → produce op st run out (produce op st run (query user_len) s).1 ≡ produce op st run out s
  unfolding produce
  produce-query st run out s user_len n h = elim (Option-cases (op.ctx_of s)) [
    | inl none_ ↦
        let is = ap (λ x. x.0.new_len) (ap (begun op st run (query user_len) s) none_) in
        ground (arith, h, is)
    | inr (c, has) ↦ elim (Result-cases (op.enter c st).1) [
      | inr (e, failed) ↦
          let enters : op.enter c st ≡ ((op.enter c st).0, err e) =
            ap (λ r. ((op.enter c st).0, r)) failed in
          let is =
            ap (λ x. x.0.new_len)
              (ap (begun op st run (query user_len) s) has
                ∙ ap (entered op run (query user_len) s) enters) in
          ground (arith, h, is)
      | inl (u, good) ↦
          let c' = (op.enter c st).0 in
          let enters : op.enter c st ≡ (c', ok tt) = ap (λ r. (c', r)) good in
          let after : (produce op st run (query user_len) s).1 ≡ op.put (some c') s =
            ap (λ x. x.1) (produce-entered st run (query user_len) s c c' has enters) in
          ap (produce op st run out) after ∙ query-again st run out s c c' has enters
    ]
  ]

-- There is a buffer with room for the bytes.
abbrev pub Fits : Option ℕ → Bool → Bytes → Type 0
Fits len has_buf v =
    (has_buf ≡ true) × (user_len : ℕ) × (len ≡ some user_len) × (length v ≤ user_len)

module _ {S : Type 0} (op : Op S) where
  copied_fits :
      (user_len out_len : ℕ) (r : Result CryptoError Bytes) (v : Bytes)
      → (copied op user_len out_len r).written ≡ some v
      → length v ≤ user_len
  copied_fits user_len out_len (err e) v h = ground arith
  copied_fits user_len out_len (ok w) v h = ground arith

  in_slice_fits :
      (run : Option (op.Ctx → Result CryptoError Bytes)) (c : op.Ctx) (s : S) (user_len : ℕ)
      (v : Bytes)
      → (in_slice op run c s user_len).0.written ≡ some v
      → length v ≤ user_len
  in_slice_fits none c s user_len v h = ground arith
  in_slice_fits (some run) c s user_len v h = copied_fits user_len (op.out_len c) (run c) v h

  out_slice-Fits :
      (run : Option (op.Ctx → Result CryptoError Bytes)) (c : op.Ctx) (s : S) (len : Option ℕ)
      (has_buf : Bool) (v : Bytes)
      → (out_slice op run c s len has_buf).0.written ≡ some v
      → Fits len has_buf v
  out_slice-Fits run c s none has_buf v h = ground arith
  out_slice-Fits run c s (some user_len) false v h = ground arith
  out_slice-Fits run c s (some user_len) true v h =
      elim (Bool-cases (ltb user_len (op.out_len c))) [
        | inl small ↦ ground arith
        | inr room ↦ (refl, user_len, refl, in_slice_fits run c s user_len v (ground arith))
      ]

  -- An operation writes only to a buffer that is there, and no more than the caller has room for.
  pub produce-Fits :
      (st : OpCtxState) (run : Option (op.Ctx → Result CryptoError Bytes)) (out : OutBuf) (s : S)
      (v : Bytes)
      → (produce op st run out s).0.written ≡ some v
      → Fits out.len out.has_buf v
  unfolding produce
  produce-Fits st run out s v h = elim (Option-cases (op.ctx_of s)) [
    | inl none_ ↦ ground arith
    | inr (c, has) ↦ elim (Result-cases (op.enter c st).1) [
      | inr (e, failed) ↦
          let whole : produce op st run out s ≡ entered op run out s ((op.enter c st).0, err e) =
            ap (begun op st run out s) has
            ∙ ap (λ r. entered op run out s ((op.enter c st).0, r)) failed in
          ground (arith, h, whole)
      | inl (u, good) ↦
          let c' = (op.enter c st).0 in
          let whole =
            ap (begun op st run out s) has ∙ ap (λ r. entered op run out s (c', r)) good in
          out_slice-Fits run c' (op.put (some c') s) out.len out.has_buf v
            (ap (λ x. x.0.written) (sym whole) ∙ h)
    ]
  ]
