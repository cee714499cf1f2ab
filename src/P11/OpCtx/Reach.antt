-- ===== src/P11/OpCtx/Reach.antt =====
-- vtok_p11/src/crypto: the order of the parts of an operation in a context that digests its data.
use aws_nitro_enclaves_acm.Prelude.{
  ◌≡◌, ◌⊎◌, ◌↔◌, inl, inr, refl, List, [], ◌∷◌, Result, ok, ◌>>=◌, arith,
}
use aws_nitro_enclaves_acm.P11.Error.{CryptoError}
use aws_nitro_enclaves_acm.P11.OpCtx.{
  OpCtxState, initialized, singlepart_active, multipart_active, multipart_ready, enter_state,
}

-- A sequence of requested states, each of which must be entered.
pub enter_all : OpCtxState → List OpCtxState → Result CryptoError OpCtxState
enter_all s [] = ok s
enter_all s (r ∷ rs) = do s' ← enter_state s r; enter_all s' rs

abbrev pub OnlySingle : List OpCtxState → Type 0
OnlySingle [] = Unit
OnlySingle (r ∷ rs) = (r ≡ singlepart_active) × OnlySingle rs

abbrev pub OnlyReady : List OpCtxState → Type 0
OnlyReady [] = Unit
OnlyReady (r ∷ rs) = (r ≡ multipart_ready) × OnlyReady rs

-- Updates, then finals.
abbrev pub UpdatesThenFinal : List OpCtxState → Type 0
UpdatesThenFinal [] = Unit
UpdatesThenFinal (initialized ∷ rs) = ⊥
UpdatesThenFinal (singlepart_active ∷ rs) = ⊥
UpdatesThenFinal (multipart_active ∷ rs) = UpdatesThenFinal rs
UpdatesThenFinal (multipart_ready ∷ rs) = OnlyReady rs

-- No request asks for the initial state.
abbrev pub NeverInitial : List OpCtxState → Type 0
NeverInitial [] = Unit
NeverInitial (initialized ∷ rs) = ⊥
NeverInitial (_ ∷ rs) = NeverInitial rs

abbrev pub Entered : OpCtxState → List OpCtxState → Type 0
Entered s rs = (s' : OpCtxState) × (enter_all s rs ≡ ok s')

single_iff : (rs : List OpCtxState) → Entered singlepart_active rs ↔ OnlySingle rs
unfolding enter_all enter_state
single_iff [] = (λ h. tt, λ h. (_, refl))
single_iff (singlepart_active ∷ rs) = (λ h. (refl, (single_iff rs).0 h), λ h. (single_iff rs).1 h.1)
single_iff (initialized ∷ rs) = (λ h. ground arith, λ h. ground arith)
single_iff (multipart_active ∷ rs) = (λ h. ground arith, λ h. ground arith)
single_iff (multipart_ready ∷ rs) = (λ h. ground arith, λ h. ground arith)

ready_iff : (rs : List OpCtxState) → Entered multipart_ready rs ↔ OnlyReady rs
unfolding enter_all enter_state
ready_iff [] = (λ h. tt, λ h. (_, refl))
ready_iff (multipart_ready ∷ rs) = (λ h. (refl, (ready_iff rs).0 h), λ h. (ready_iff rs).1 h.1)
ready_iff (initialized ∷ rs) = (λ h. ground arith, λ h. ground arith)
ready_iff (multipart_active ∷ rs) = (λ h. ground arith, λ h. ground arith)
ready_iff (singlepart_active ∷ rs) = (λ h. ground arith, λ h. ground arith)

active_iff : (rs : List OpCtxState) → Entered multipart_active rs ↔ UpdatesThenFinal rs
unfolding enter_all enter_state
active_iff [] = (λ h. tt, λ h. (_, refl))
active_iff (multipart_active ∷ rs) = (λ h. (active_iff rs).0 h, λ h. (active_iff rs).1 h)
active_iff (multipart_ready ∷ rs) = (λ h. (ready_iff rs).0 h, λ h. (ready_iff rs).1 h)
active_iff (initialized ∷ rs) = (λ h. ground arith, λ h. ground arith)
active_iff (singlepart_active ∷ rs) = (λ h. ground arith, λ h. ground arith)

-- In a context that digests its data (`DigestCtx`, `DigestSignCtx`, `DigestVerifyCtx`), the requests
-- that follow the start of an operation and never ask for the initial state are all granted exactly
-- when they are all for a single part, or they are updates followed by finals.
pub enter_all_iff :
    (rs : List OpCtxState)
    → NeverInitial rs
    → Entered initialized rs ↔ (OnlySingle rs ⊎ UpdatesThenFinal rs)
unfolding enter_all enter_state
enter_all_iff [] n = (λ h. inl tt, λ h. (_, refl))
enter_all_iff (initialized ∷ rs) n = ground arith
enter_all_iff (singlepart_active ∷ rs) n =
    (λ h. inl (refl, (single_iff rs).0 h), λ h. (single_iff rs).1 (ground arith))
enter_all_iff (multipart_active ∷ rs) n =
    (λ h. inr ((active_iff rs).0 h), λ h. (active_iff rs).1 (ground arith))
enter_all_iff (multipart_ready ∷ rs) n =
    (λ h. inr ((ready_iff rs).0 h), λ h. (ready_iff rs).1 (ground arith))
