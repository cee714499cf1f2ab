-- ===== src/P11/Crypto/Parts.antt =====
-- A digest of data in parts.
use aws_nitro_enclaves_acm.Prelude.{
  ℕ, zero, suc, true, ◌≡◌, refl, sym, subst, ap, ◌∙◌, Option, none, some, List, [], ◌∷◌, ◌++◌,
  length, drop, replicate, Bytes, Result, ok, err, ok_or, arith, Option-cases, Result-cases, inl,
  inr,
}
use aws_nitro_enclaves_acm.P11.Error.{CryptoError, digest_final}
use aws_nitro_enclaves_acm.P11.OpCtx.{initialized, multipart_active, enter_state}
use aws_nitro_enclaves_acm.P11.Crypto.Evp.{Evp}
use aws_nitro_enclaves_acm.P11.Crypto.Pkey.{mech_type_to_evp_md, into_zeros}
use aws_nitro_enclaves_acm.P11.Crypto.Digest.{
  DigestCtx, new_digest_ctx, digest_enter_state, digest_ctx_update, digest_finalize, digest_once,
  entered, update_entered,
}

-- What libcrypto documents of its digests: an update succeeds, updates add up, a digest in one call
-- is that of one update, and it has the size of its kind.
pub record DigestLaws (E : Evp) : Type 0 where
  pub update_ok : (c : E.EvpCtx) (d : Bytes) → (E.evp_digest_update c d).1 ≡ true
  pub update_update :
      (c : E.EvpCtx) (a b : Bytes)
      → (E.evp_digest_update (E.evp_digest_update c a).0 b).0 ≡ (E.evp_digest_update c (a ++ b)).0
  pub digest_is :
      (fresh c : E.EvpCtx) (md : E.EvpMd) (d : Bytes)
      → E.evp_digest_init_ex fresh md ≡ some c
      → E.evp_digest md d ≡ E.evp_digest_final_ex (E.evp_digest_update c d).0
  pub size_is :
      (md : E.EvpMd) (d v : Bytes) → E.evp_digest md d ≡ some v → length v ≡ E.evp_md_size md

pub concat : List Bytes → Bytes
concat [] = []
concat (p ∷ ps) = p ++ concat ps

append-nil : (xs : Bytes) → xs ++ [] ≡ xs
append-nil [] = refl
append-nil (x ∷ xs) = ap (λ ys. x ∷ ys) (append-nil xs)

drop-replicate : (n : ℕ) → drop {A = ℕ} n (replicate n 0) ≡ []
drop-replicate zero = refl
drop-replicate (suc n) = drop-replicate n

into_zeros-full : (n : ℕ) (bs : Bytes) → length bs ≡ n → into_zeros n bs ≡ bs
into_zeros-full n bs h =
    ap (λ k. bs ++ drop k (replicate n 0)) h
    ∙ ap (λ ys. bs ++ ys) (drop-replicate n)
    ∙ append-nil bs

-- The value of a result that has one; the two calls report failure by different errors.
abbrev pub value_of : Result CryptoError Bytes → Option Bytes
value_of (ok v) = some v
value_of (err e) = none

ok_or-value : (o : Option Bytes) → value_of (ok_or o digest_final) ≡ o
ok_or-value none = refl
ok_or-value (some v) = refl

module _ (E : Evp) where
  -- The context after an update with each part.
  pub feed : DigestCtx E → List Bytes → DigestCtx E
  feed ctx [] = ctx
  feed ctx (p ∷ ps) = feed (digest_ctx_update E ctx p).0 ps

  abbrev fed : DigestCtx E → Bytes → DigestCtx E
  fed ctx d = record ctx {
    state = multipart_active;
    evp_ctx = (E.evp_digest_update ctx.evp_ctx d).0;
  }

  update-fed :
      (ctx : DigestCtx E) (d : Bytes)
      → enter_state ctx.state multipart_active ≡ ok multipart_active
      → (digest_ctx_update E ctx d).0 ≡ fed ctx d
  unfolding digest_ctx_update digest_enter_state
  update-fed ctx d open_ = ap (λ r. (update_entered E d (entered E ctx r)).0) open_

module _ (E : Evp) (laws : DigestLaws E) where
  feed-fed :
      (ctx : DigestCtx E) (p : Bytes) (ps : List Bytes)
      → enter_state ctx.state multipart_active ≡ ok multipart_active
      → feed E ctx (p ∷ ps) ≡ fed E ctx (concat (p ∷ ps))
  unfolding feed concat enter_state
  feed-fed ctx p [] open_ = update-fed E ctx p open_ ∙ ap (fed E ctx) (sym (append-nil p))
  feed-fed ctx p (q ∷ ps) open_ =
      ap (λ c. feed E c (q ∷ ps)) (update-fed E ctx p open_)
      ∙ feed-fed (fed E ctx p) q ps refl
      ∙ ap (λ c. record ctx { state = multipart_active; evp_ctx = c })
          (laws.update_update ctx.evp_ctx p (concat (q ∷ ps)))

  abbrev fresh_ctx : E.EvpMd → E.EvpCtx → ℕ → DigestCtx E
  fresh_ctx md c mech_type = record {
    state = initialized;
    digest_len = E.evp_md_size md;
    evp_ctx = c;
    mech_type = mech_type;
  }

  once-value :
      (mech_type : ℕ) (md : E.EvpMd) (fresh c : E.EvpCtx) (d : Bytes)
      → mech_type_to_evp_md E mech_type ≡ ok md
      → E.evp_digest_init_ex fresh md ≡ some c
      → value_of (digest_once E (fresh_ctx md c mech_type) d)
        ≡ E.evp_digest_final_ex (E.evp_digest_update c d).0
  unfolding digest_once digest_enter_state enter_state
  once-value mech_type md fresh c d kind init =
      let is = laws.digest_is fresh c md d init in
      elim (Option-cases (E.evp_digest md d)) [
        | inl none_ ↦ ground (arith, is, kind, none_)
        | inr (v, some_) ↦
            let full = into_zeros-full (E.evp_md_size md) v (laws.size_is md d v some_) in
            ground (arith, is, kind, some_, full)
      ]

  feed-value :
      (mech_type : ℕ) (md : E.EvpMd) (c : E.EvpCtx) (p : Bytes) (ps : List Bytes)
      → value_of (digest_finalize E (feed E (fresh_ctx md c mech_type) (p ∷ ps)))
        ≡ E.evp_digest_final_ex (E.evp_digest_update c (concat (p ∷ ps))).0
  unfolding digest_finalize digest_enter_state enter_state
  feed-value mech_type md c p ps =
      ap (λ x. value_of (digest_finalize E x)) (feed-fed (fresh_ctx md c mech_type) p ps refl)
      ∙ ok_or-value (E.evp_digest_final_ex (E.evp_digest_update c (concat (p ∷ ps))).0)

  -- If libcrypto's digests are as documented, then to feed a new digest context the data in parts
  -- and to finish it gives the digest of the data in one call, for every kind of digest.
  pub finalize-feed :
      (mech_type : ℕ) (ctx : DigestCtx E) (p : Bytes) (ps : List Bytes)
      → new_digest_ctx E mech_type ≡ ok ctx
      → value_of (digest_finalize E (feed E ctx (p ∷ ps)))
        ≡ value_of (digest_once E ctx (concat (p ∷ ps)))
  unfolding new_digest_ctx
  finalize-feed mech_type ctx p ps made = elim (Result-cases (mech_type_to_evp_md E mech_type)) [
    | inr (e, failed) ↦ ground arith
    | inl (md, kind) ↦ elim (Option-cases E.evp_md_ctx_new) [
      | inl none_ ↦ ground arith
      | inr (fresh, new) ↦ elim (Option-cases (E.evp_digest_init_ex fresh md)) [
        | inl none_ ↦ ground arith
        | inr (c, init) ↦
            let is : fresh_ctx md c mech_type ≡ ctx = ground arith in
            subst
              (λ x.
                value_of (digest_finalize E (feed E x (p ∷ ps)))
                ≡ value_of (digest_once E x (concat (p ∷ ps))))
              is
              (feed-value mech_type md c p ps
                ∙ sym (once-value mech_type md fresh c (concat (p ∷ ps)) kind init))
      ]
    ]
  ]
