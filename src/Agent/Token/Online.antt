-- ===== src/Agent/Token/Online.antt =====
-- vtok_agent/src/agent/mngtok.rs, `sync`: an enclave that lost a token gets it again.
use aws_nitro_enclaves_acm.Agent.Later.{Attests, source_After}
use aws_nitro_enclaves_acm.Agent.Token.Fresh.{add-Provided}
use aws_nitro_enclaves_acm.Agent.Token.Current.{describe_After}
use aws_nitro_enclaves_acm.Prelude.{
  ℕ, ◌≤◌, ◌≡◌, refl, sym, ◌∙◌, subst, arith, Bool, Option, none, Result, ok, err,
}
use aws_nitro_enclaves_acm.Rpc.Schema.{ApiOk, ApiError, add_token, describe_token}
use aws_nitro_enclaves_acm.Rpc.Schema
use aws_nitro_enclaves_acm.Agent.Env.{Env, Host}
use aws_nitro_enclaves_acm.Agent.Enclave.{retry, call_add, call_describe}
use aws_nitro_enclaves_acm.Agent.Enclave.Retries.{Recovers, retry-Recovers_from}
use aws_nitro_enclaves_acm.Agent.Source.{Error, DbSource, update_source}
use aws_nitro_enclaves_acm.Agent.Target.{PostSyncAction, satisfy_target}
use aws_nitro_enclaves_acm.Agent.Token.{
  ManagedToken, to_schema_token, ask, try_target, or_none, add, sync_case, sync_source, sync,
}

module _ (E : Env) where
  or_none-ok :
      (r : Result Error (Option PostSyncAction))
      → (a : Option PostSyncAction) × (or_none E r ≡ ok a)
  or_none-ok (ok a) = (a, refl)
  or_none-ok (err e) = (none, refl)

  try_target-ok :
      (tok : ManagedToken) (h : Host E)
      → (a : Option PostSyncAction) × ((try_target E tok h).0 ≡ ok a)
  unfolding try_target
  try_target-ok tok h =
      or_none-ok (satisfy_target E tok.service tok.label tok.pin tok.db tok.target h).0

  -- The host after the source was read and the token was asked for.
  abbrev pub asked_host : ManagedToken → Host E → Host E
  asked_host tok h =
      let g = (update_source E tok.db h).1 in
      record g { world = (E.rpc (describe_token tok.label tok.pin) g.world).1 }

  -- What has to go well for a token to be added.
  pub record Adds (more k : ℕ) (tok : ManagedToken) (h : Host E) : Type 0 where
    pub db : DbSource
    pub changed : Bool
    pub fetched : (update_source E tok.db h).0 ≡ ok (db, changed)
    pub reason : ApiError
    pub offline :
        (E.rpc (describe_token tok.label tok.pin) (update_source E tok.db h).1.world).0
        ≡ ok (err reason)
    pub token : Schema.Token
    pub ready : Host E
    pub credentials :
        to_schema_token E (record tok { db = db }) (asked_host tok h) ≡ (ok token, ready)
    pub recovers : Recovers E k 1 (add_token token) ready.world
    pub rounds : k ≤ more

  module _ (more : ℕ) where
    add-ok :
        (k : ℕ) (tok : ManagedToken) (h g : Host E) (token : Schema.Token)
        → to_schema_token E tok h ≡ (ok token, g)
        → Recovers E k 1 (add_token token) g.world
        → k ≤ more
        → (a : Option PostSyncAction) × ((add E more tok h).0 ≡ ok a)
    unfolding add call_add ask
    add-ok k tok h g token e r l =
        let (answer, went) = retry-Recovers_from E more k 1 (add_token token) g.world r l in
        let (a, acted) =
          try_target-ok tok (record g { world = (retry E more 1 (add_token token) g.world).1 }) in
        (a, rw (e, add) (rw (went, add) acted))

    -- What a synchronization of such a token is, after its source was read and it was asked for.
    sync-add :
        (k : ℕ) (tok : ManagedToken) (h : Host E) (s : Adds more k tok h)
        → (((sync E more tok h).0 ≡ (add E more (record tok { db = s.db }) (asked_host tok h)).0)
            × ((sync E more tok h).2
                ≡ (add E more (record tok { db = s.db }) (asked_host tok h)).1))
    unfolding sync sync_source sync_case call_describe
    sync-add k tok h s = (
      rw (s.fetched, sync) (rw (s.offline, sync_source) refl),
      rw (s.fetched, sync) (rw (s.offline, sync_source) refl),
    )

    -- A token that the enclave does not have, as after a restart, is added by the next
    -- synchronization: it succeeds, and the enclave got the key material of the token by attestation
    -- since the synchronization began. So it is if the source and the credentials can be had and the
    -- enclave answers one of the requests to add it well, whatever becomes of the web server.
    pub sync-Adds :
        (k : ℕ) (tok : ManagedToken) (h : Host E) (L : Attests E tok.label)
        → Adds more k tok h
        → ((a : Option PostSyncAction) × ((sync E more tok h).0 ≡ ok a))
          × (E.now h.world ≤ L.attested (sync E more tok h).2.world)
    sync-Adds k tok h L s =
        let host = asked_host tok h in
        let tok' = record tok { db = s.db } in
        let (a, added) = add-ok k tok' host s.ready s.token s.credentials s.recovers s.rounds in
        let (same, left) = sync-add k tok h s in
        let read = source_After E tok.label L tok.db h in
        let asked = describe_After E tok.label L more tok (update_source E tok.db h).1 in
        let provided = (add-Provided E tok.label L more tok' host).1 refl a added in
        (
          (a, same ∙ added),
          subst (λ g. E.now h.world ≤ L.attested g.world) (sym left)
              (omega (arith, read, asked, provided)),
        )
