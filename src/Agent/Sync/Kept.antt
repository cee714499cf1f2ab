-- ===== src/Agent/Sync/Kept.antt =====
-- vtok_agent/src/agent/mod.rs, `sync`: the tokens that the agent keeps.
use aws_nitro_enclaves_acm.Prelude.{
  ℕ, ◌+◌, ◌≤◌, ◌<◌, ◌≡◌, refl, sym, subst, true, ◌⊎◌, Option, List, [], ◌∷◌, Bytes, bytes_eq_refl,
  Result, ok, err, arith, inl, inr, Result-cases, All,
}
use aws_nitro_enclaves_acm.Agent.Env.{Env, Host}
use aws_nitro_enclaves_acm.Agent.Enclave.{call_remove}
use aws_nitro_enclaves_acm.Agent.Source.{Error}
use aws_nitro_enclaves_acm.Agent.Target.{PostSyncAction}
use aws_nitro_enclaves_acm.Agent.Token.{ManagedToken, sync}
use aws_nitro_enclaves_acm.Agent.Token.Current.{IsCurrent, Outcome, sync-Outcome}
use aws_nitro_enclaves_acm.Agent.Later.{Attests, HostAfter}
use aws_nitro_enclaves_acm.Agent.Later.Whole.{sync_After, verdict_After, sync_tokens_After}
use aws_nitro_enclaves_acm.Agent.Sync.{
  Verdict, fine, broken, release, fatal, Progress, removed, apply_verdict, judge_sync, sync_tokens,
  is_broken,
}

module _ (E : Env) (L : (label : Bytes) → Attests E label) (more : ℕ) where
  -- A token with a refresh interval that is current.
  abbrev pub IsGood : Host E → ManagedToken → Type 0
  IsGood h tok = (0 < tok.refresh_interval) × IsCurrent E tok.label (L tok.label) tok h

  -- The token was provisioned less than its refresh interval before the host was `h`.
  abbrev pub IsRecent : Host E → Host E → ManagedToken → Type 0
  IsRecent h g tok = E.now h.world < (L tok.label).attested g.world + tok.refresh_interval

  abbrev pub HasHandled : Host E → Host E → Progress → ManagedToken → Type 0
  HasHandled h g p tok =
      (is_broken p.broken_list tok.label ≡ true) ⊎ (IsGood g tok × IsRecent h g tok)

  IsGood-later :
      (h g : Host E) (toks : List ManagedToken)
      → ((label : Bytes) → HostAfter E label (L label) h g)
      → All (IsGood h) toks
      → All (IsGood g) toks
  IsGood-later h g [] l a = tt
  IsGood-later h g (tok ∷ toks) l a =
      let after = l tok.label in
      let (good, others) = a in (ground (arith, after, good), IsGood-later h g toks l others)

  verdict-broken :
      (v : Verdict) (tok : ManagedToken) (p p' : Progress) (h : Host E) (label : Bytes)
      → (apply_verdict E more v tok p h).0 ≡ ok p'
      → is_broken p.broken_list label ≡ true
      → is_broken p'.broken_list label ≡ true
  unfolding apply_verdict
  verdict-broken (fine act) tok p p' h label e b = ground arith
  verdict-broken broken tok p p' h label e b = ground arith
  verdict-broken (fatal error) tok p p' h label e b = absurd (ground arith)
  verdict-broken release tok p p' h label e b =
      elim (Result-cases (removed E more (call_remove E tok.label tok.pin h.world).0)) [
        | inl (u, f) ↦ ground (arith, f)
        | inr (error, f) ↦ absurd (ground (arith, f))
      ]

  judge_sync-fine :
      (r : Result Error (Option PostSyncAction)) (act : Option PostSyncAction)
      → judge_sync r ≡ fine act
      → r ≡ ok act
  unfolding judge_sync
  judge_sync-fine (ok a) act e = ground arith
  judge_sync-fine (err error) act e = ground arith

  -- After a verdict that is not fatal the token is on the list of the broken ones, or is fine.
  verdict-listed :
      (v : Verdict) (tok : ManagedToken) (p p' : Progress) (h : Host E)
      → (apply_verdict E more v tok p h).0 ≡ ok p'
      → (is_broken p'.broken_list tok.label ≡ true)
        ⊎ ((act : Option PostSyncAction) × (v ≡ fine act))
  unfolding apply_verdict
  verdict-listed (fine act) tok p p' h e = inr (act, refl)
  verdict-listed broken tok p p' h e = inl (ground (arith, bytes_eq_refl tok.label))
  verdict-listed (fatal error) tok p p' h e = absurd (ground arith)
  verdict-listed release tok p p' h e =
      elim (Result-cases (removed E more (call_remove E tok.label tok.pin h.world).0)) [
        | inl (u, f) ↦ inl (ground (arith, f, bytes_eq_refl tok.label))
        | inr (error, f) ↦ absurd (ground (arith, f))
      ]

  tokens-broken :
      (toks : List ManagedToken) (p p' : Progress) (h : Host E) (label : Bytes)
      → (sync_tokens E more toks p h).0 ≡ ok p'
      → is_broken p.broken_list label ≡ true
      → is_broken p'.broken_list label ≡ true
  unfolding sync_tokens
  tokens-broken [] p p' h label e b = ground arith
  tokens-broken (tok ∷ toks) p p' h label e b =
      let s = sync E more tok h in
      let v = apply_verdict E more (judge_sync s.0) s.1 p s.2 in
      elim (Result-cases v.0) [
        | inr (error, f) ↦ absurd (ground (arith, f))
        | inl (q, f) ↦
            tokens-broken toks q p' v.1 label (ground (arith, f))
              (verdict-broken (judge_sync s.0) s.1 p q s.2 label f b)
      ]

  first-HasHandled :
      (tok : ManagedToken) (h g : Host E)
      (s : Result Error (Option PostSyncAction) × ManagedToken × Host E) (p' : Progress)
      → IsGood h tok
      → Outcome E tok.label (L tok.label) tok h s
      → HostAfter E tok.label (L tok.label) s.2 g
      → (is_broken p'.broken_list s.1.label ≡ true)
        ⊎ ((act : Option PostSyncAction) × (s.0 ≡ ok act))
      → HasHandled h g p' s.1
  first-HasHandled tok h g s p' good o l (inl listed) = inl listed
  first-HasHandled tok h g s p' good o l (inr (act, went)) =
      let current : IsCurrent E tok.label (L tok.label) s.1 g =
        ground (arith, o.current, o.same_interval, l) in
      let recent : E.now h.world < (L tok.label).attested g.world + s.1.refresh_interval =
        omega (arith, o.recent act went, o.same_interval, l) in
      inr (
        subst
          (λ label.
            ((0 < s.1.refresh_interval) × IsCurrent E label (L label) s.1 g)
            × (E.now h.world < (L label).attested g.world + s.1.refresh_interval))
          (sym o.same_label) ((omega (arith, o.same_interval, good.0), current), recent))

  -- What is true of the tokens after later ones were synchronized holds from an earlier time on.
  HasHandled-earlier :
      (h g k : Host E) (p : Progress) (toks : List ManagedToken)
      → E.now h.world ≤ E.now g.world
      → All (HasHandled g k p) toks
      → All (HasHandled h k p) toks
  HasHandled-earlier h g k p [] l a = tt
  HasHandled-earlier h g k p (tok ∷ toks) l a =
      let (handled, others) = a in
      (ground (arith, handled), HasHandled-earlier h g k p toks l others)

  listed-or-ok :
      (tok : ManagedToken) (toks : List ManagedToken) (p q p' : Progress) (h : Host E)
      → (apply_verdict E more
          (judge_sync (sync E more tok h).0)
          (sync E more tok h).1
          p
          (sync E more tok h).2).0
        ≡ ok q
      → ((label : Bytes)
          → is_broken q.broken_list label ≡ true
          → is_broken p'.broken_list label ≡ true)
      → (is_broken p'.broken_list (sync E more tok h).1.label ≡ true)
        ⊎ ((act : Option PostSyncAction) × ((sync E more tok h).0 ≡ ok act))
  listed-or-ok tok toks p q p' h f grows =
      let s = sync E more tok h in
      elim (verdict-listed (judge_sync s.0) s.1 p q s.2 f) [
        | inl listed ↦ inl (grows s.1.label listed)
        | inr (act, e) ↦ inr (act, judge_sync-fine s.0 act e)
      ]

  now_later :
      (tok : ManagedToken) (p : Progress) (h : Host E)
      → E.now h.world
        ≤ E.now
            (apply_verdict E more
              (judge_sync (sync E more tok h).0)
              (sync E more tok h).1
              p
              (sync E more tok h).2).1.world
  now_later tok p h =
      let s = sync E more tok h in
      omega (
        arith,
        sync_After E tok.label (L tok.label) more tok h,
        verdict_After E tok.label (L tok.label) more (judge_sync s.0) s.1 p s.2,
      )

  pub tokens-HasHandled :
      (toks : List ManagedToken) (p p' : Progress) (h : Host E)
      → All (IsGood h) toks
      → (sync_tokens E more toks p h).0 ≡ ok p'
      → All (HasHandled h (sync_tokens E more toks p h).2 p') (sync_tokens E more toks p h).1
  unfolding sync_tokens
  tokens-HasHandled [] p p' h a e = tt
  tokens-HasHandled (tok ∷ toks) p p' h a e =
      let s = sync E more tok h in
      let v = apply_verdict E more (judge_sync s.0) s.1 p s.2 in
      elim (Result-cases v.0) [
        | inr (error, f) ↦ absurd (ground (arith, f))
        | inl (q, f) ↦
            rw (f, sync_tokens)
              (
                first-HasHandled tok h (sync_tokens E more toks q v.1).2 s p' a.0
                    (sync-Outcome E tok.label (L tok.label) more tok h refl a.0.0 a.0.1)
                    (omega (
                      arith,
                      verdict_After E tok.label (L tok.label) more (judge_sync s.0) s.1 p s.2,
                      sync_tokens_After E tok.label (L tok.label) more toks q v.1,
                    ))
                    (listed-or-ok tok toks p q p' h f
                      (λ label. tokens-broken toks q p' v.1 label (ground (arith, e, f)))),
                HasHandled-earlier h v.1 (sync_tokens E more toks q v.1).2 p'
                    (sync_tokens E more toks q v.1).1 (now_later tok p h)
                    (tokens-HasHandled toks q p' v.1
                      (IsGood-later h v.1 toks
                        (λ label. omega (
                          arith,
                          sync_After E label (L label) more tok h,
                          verdict_After E label (L label) more (judge_sync s.0) s.1 p s.2,
                        ))
                        a.1)
                      (ground (arith, e, f))),
              )
      ]
