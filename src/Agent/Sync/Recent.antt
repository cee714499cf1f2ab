-- ===== src/Agent/Sync/Recent.antt =====
-- vtok_agent/src/agent/mod.rs, `sync`: the tokens that the agent still has were provisioned lately.
use aws_nitro_enclaves_acm.Prelude.{
  ℕ, ◌≡◌, List, [], ◌∷◌, Bytes, ok, arith, inl, inr, Result-cases, Bool-cases, All,
}
use aws_nitro_enclaves_acm.Agent.Env.{Env, Host}
use aws_nitro_enclaves_acm.Agent.Imds.{invalidate_cache}
use aws_nitro_enclaves_acm.Agent.Token.{ManagedToken}
use aws_nitro_enclaves_acm.Agent.Later.{Attests, HostAfter}
use aws_nitro_enclaves_acm.Agent.Later.Whole.{execute_all-After}
use aws_nitro_enclaves_acm.Agent.Sync.{
  Progress, sync_tokens, is_broken, retain_tokens, execute_all, Agent, sync_agent,
}
use aws_nitro_enclaves_acm.Agent.Sync.Kept.{IsGood, IsRecent, HasHandled, tokens-HasHandled}

module _ (E : Env) (L : (label : Bytes) → Attests E label) (more : ℕ) where
  retain-IsRecent :
      (h g k : Host E) (p : Progress) (toks : List ManagedToken)
      → ((label : Bytes) → HostAfter E label (L label) g k)
      → All (HasHandled E L more h g p) toks
      → All
          (λ tok. IsGood E L more k tok × IsRecent E L more h k tok)
          (retain_tokens p.broken_list toks)
  unfolding retain_tokens
  retain-IsRecent h g k p [] l a = tt
  retain-IsRecent h g k p (tok ∷ toks) l a =
      let after = l tok.label in
      let (handled, others) = a in
      let rest = retain-IsRecent h g k p toks l others in
      elim (Bool-cases (is_broken p.broken_list tok.label)) [
        | inl listed ↦ rw listed rest
        | inr kept ↦ rw kept (ground (arith, kept, handled, after), rest)
      ]

  -- A synchronization of the agent that succeeds keeps only tokens that were provisioned less than
  -- their refresh interval before it began, and that are current again, if every token was current
  -- before it and has a refresh interval.
  pub sync_agent-IsRecent :
      (agent : Agent E more) (h : Host E)
      → All (IsGood E L more h) agent.tokens
      → (sync_agent E more agent h).0 ≡ ok tt
      → All
          (λ tok.
            IsGood E L more (sync_agent E more agent h).2 tok
            × IsRecent E L more h (sync_agent E more agent h).2 tok)
          (sync_agent E more agent h).1.tokens
  unfolding sync_agent invalidate_cache
  sync_agent-IsRecent agent h a e =
      let start : Progress = record { broken_list = []; post_actions = [] } in
      let h' = invalidate_cache E h in
      let r = sync_tokens E more agent.tokens start h' in
      elim (Result-cases r.0) [
        | inr (error, f) ↦ absurd (ground (arith, e, f))
        | inl (p, f) ↦
            rw (f, sync_agent)
              (retain-IsRecent h r.2
                (record r.2 { world = execute_all E more agent.options p.post_actions r.2.world }) p
                r.1
                (λ label.
                  execute_all-After E label (L label) more agent.options p.post_actions r.2.world)
                (tokens-HasHandled E L more agent.tokens start p h' a f))
      ]
