-- ===== src/Agent/Token/Fresh.antt =====
-- vtok_agent/src/agent/mngtok.rs: how long ago the enclave got the key material of a token that is
-- synchronized.
use aws_nitro_enclaves_acm.Prelude.{
  ℕ, ◌+◌, ◌∙◌, ◌≤◌, ◌≡◌, Option, none, some, Bytes, Result, ok, arith, inl, inr, Result-cases,
}
use aws_nitro_enclaves_acm.Rpc.Schema.{
  ApiRequest, ApiOk, ApiError, EnvelopeKey, add_token, refresh_token, update_token,
}
use aws_nitro_enclaves_acm.Rpc.Schema
use aws_nitro_enclaves_acm.Agent.Config.{Target}
use aws_nitro_enclaves_acm.Agent.Env.{Env, Host}
use aws_nitro_enclaves_acm.Agent.Imds.{get_with}
use aws_nitro_enclaves_acm.Agent.Enclave.{retry, call_add, call_refresh, call_update}
use aws_nitro_enclaves_acm.Agent.Source.{
  Error, add_token_error, refresh_token_error, update_token_error,
}
use aws_nitro_enclaves_acm.Agent.Token.{
  ManagedToken, kms_envelope_key, to_schema_token, ask, try_target, target_action, update, add,
  refresh,
}
use aws_nitro_enclaves_acm.Agent.Later.{Attests, Provisions, HostAfter, get_with_After}
use aws_nitro_enclaves_acm.Agent.Later.Calls.{retry-After, retry-Provisions, satisfy_target_After}

module _ (E : Env) (label : Bytes) (L : Attests E label) where
  abbrev pub HostLater : Host E → Host E → Type 0
  HostLater = HostAfter E label L

  key_After : (h : Host E) → HostLater h (kms_envelope_key E h).1
  unfolding kms_envelope_key
  key_After h =
      let h1 = (get_with E (λ cache. cache.creds) h).1 in
      ground (
        arith,
        get_with_After E label L (λ cache. cache.creds) h,
        get_with_After E label L (λ cache. cache.region) h1,
      )

  token_After : (tok : ManagedToken) (h : Host E) → HostLater h (to_schema_token E tok h).1
  unfolding to_schema_token
  token_After tok h = ground (arith, key_After h)

  token-label :
      (tok : ManagedToken) (h : Host E) (t : Schema.Token)
      → (to_schema_token E tok h).0 ≡ ok t
      → t.label ≡ tok.label
  unfolding to_schema_token
  token-label tok h t e = ground arith

  try_target_After : (tok : ManagedToken) (h : Host E) → HostLater h (try_target E tok h).1
  unfolding try_target
  try_target_After tok h =
      satisfy_target_After E label L tok.service tok.label tok.pin tok.db tok.target h

  target_action_After :
      (tok : ManagedToken) (t : Option Target) (h : Host E)
      → HostLater h (target_action E tok t h).1
  target_action_After tok none h = ground arith
  target_action_After tok (some t) h = try_target_After tok h

  -- A request that may be repeated.
  ask_After :
      (f : ApiError → Error) (more : ℕ) (request : ApiRequest) (h : Host E)
      → HostLater h (ask E f (retry E more 1 request) h).1
  unfolding ask
  ask_After f more request h = retry-After E label L more 1 request h.world

  ask-Provisions :
      (f : ApiError → Error) (more : ℕ) (request : ApiRequest) (h : Host E) (a : ApiOk)
      → Provisions request label
      → (ask E f (retry E more 1 request) h).0 ≡ ok a
      → E.now h.world ≤ L.attested (ask E f (retry E more 1 request) h).1.world
  unfolding ask
  ask-Provisions f more request h a p e =
      ground (arith, retry-Provisions E label L more 1 request h.world a p)

  module _ (more : ℕ) (tok : ManagedToken) where
    -- What `update`, `add` and `refresh` do to the host, where they succeed and where they fail.
    abbrev pub Provided : {A : Type 0} → Host E → Result Error A × Host E → Type 0
    Provided {A} h r =
        HostLater h r.1
        × (tok.label ≡ label → (a : A) → r.0 ≡ ok a → E.now h.world ≤ L.attested r.1.world)

    pub update-Provided : (h : Host E) → Provided h (update E more tok h)
    unfolding update call_update
    update-Provided h =
        let r1 = to_schema_token E tok h in
        elim (Result-cases r1.0) [
          | inr (error, e) ↦
              (ground (arith, e, token_After tok h), λ named a g. absurd (ground (arith, e)))
          | inl (token, e) ↦
              let request = update_token tok.label tok.pin token in
              let r2 = ask E update_token_error (retry E more 1 request) r1.1 in
              let asked = ask_After update_token_error more request r1.1 in
              elim (Result-cases r2.0) [
                | inr (error, f) ↦ (
                  ground (arith, e, f, token_After tok h, asked),
                  λ named a g. absurd (ground (arith, e, f)),
                )
                | inl (answered, f) ↦
                    let acted = target_action_After tok tok.target r2.1 in
                    (
                      ground (arith, e, f, token_After tok h, asked, acted),
                      λ named a g. ground (
                        arith,
                        e,
                        f,
                        token_After tok h,
                        asked,
                        acted,
                        ask-Provisions update_token_error more request r1.1 answered named f,
                      ),
                    )
              ]
        ]

    pub add-Provided : (h : Host E) → Provided h (add E more tok h)
    unfolding add call_add
    add-Provided h =
        let r1 = to_schema_token E tok h in
        elim (Result-cases r1.0) [
          | inr (error, e) ↦
              (ground (arith, e, token_After tok h), λ named a g. absurd (ground (arith, e)))
          | inl (token, e) ↦
              let request = add_token token in
              let r2 = ask E add_token_error (retry E more 1 request) r1.1 in
              let asked = ask_After add_token_error more request r1.1 in
              elim (Result-cases r2.0) [
                | inr (error, f) ↦ (
                  ground (arith, e, f, token_After tok h, asked),
                  λ named a g. absurd (ground (arith, e, f)),
                )
                | inl (answered, f) ↦
                    let acted = try_target_After tok r2.1 in
                    (
                      ground (arith, e, f, token_After tok h, asked, acted),
                      λ named a g. ground (
                        arith,
                        e,
                        f,
                        token_After tok h,
                        asked,
                        acted,
                        ask-Provisions add_token_error more request r1.1 answered
                            (token-label tok h token e ∙ named) f,
                      ),
                    )
              ]
        ]

    pub refresh-Provided : (h : Host E) → Provided h (refresh E more tok h)
    unfolding refresh call_refresh
    refresh-Provided h =
        let r1 = kms_envelope_key E h in
        elim (Result-cases r1.0) [
          | inr (error, e) ↦
              (ground (arith, e, key_After h), λ named a g. absurd (ground (arith, e)))
          | inl (token, e) ↦
              let request = refresh_token tok.label tok.pin token in
              let r2 = ask E refresh_token_error (retry E more 1 request) r1.1 in
              let asked = ask_After refresh_token_error more request r1.1 in
              elim (Result-cases r2.0) [
                | inr (error, f) ↦ (
                  ground (arith, e, f, key_After h, asked),
                  λ named a g. absurd (ground (arith, e, f)),
                )
                | inl (answered, f) ↦ (
                  ground (arith, e, f, key_After h, asked),
                  λ named a g. ground (
                    arith,
                    e,
                    f,
                    key_After h,
                    asked,
                    ask-Provisions refresh_token_error more request r1.1 answered named f,
                  ),
                )
              ]
        ]

    pub refresh_next :
        (h : Host E) (tok' : ManagedToken)
        → (refresh E more tok h).0 ≡ ok tok'
        → tok' ≡ record tok { next_refresh = tok.next_refresh + tok.refresh_interval }
    unfolding refresh
    refresh_next h tok' e = ground arith
