-- ===== src/Agent/Token/Current.antt =====
-- vtok_agent/src/agent/mngtok.rs, `sync`: a token that is synchronized was provisioned less than its
-- refresh interval ago.
use aws_nitro_enclaves_acm.Prelude.{
  ℕ, ◌+◌, ◌≤◌, ◌<◌, ◌≡◌, refl, Bool, true, false, leb, Option, Bytes, Result, ok, err, ◌⊎◌, arith,
  inl, inr, Result-cases, Bool-cases,
}
use aws_nitro_enclaves_acm.Agent.Env.{Env, Host}
use aws_nitro_enclaves_acm.Agent.Enclave.{call_describe, is_ok}
use aws_nitro_enclaves_acm.Agent.Source.{Error, enclave_error, update_source}
use aws_nitro_enclaves_acm.Agent.Target.{PostSyncAction}
use aws_nitro_enclaves_acm.Agent.Token.{
  ManagedToken, update, add, refresh, refreshed, sync_case, sync_source, sync,
}
use aws_nitro_enclaves_acm.Agent.Later.{Attests, HostAfter, source_After}
use aws_nitro_enclaves_acm.Agent.Token.Fresh.{
  update-Provided, add-Provided, refresh-Provided, refresh_next,
}

module _ (E : Env) (label : Bytes) (L : Attests E label) where
  -- The next refresh is due, or it is no later than the refresh interval after the last time when the
  -- token was provisioned.
  abbrev pub IsCurrent : ManagedToken → Host E → Type 0
  IsCurrent tok h =
      (tok.next_refresh ≤ E.now h.world)
      ⊎ (tok.next_refresh ≤ L.attested h.world + tok.refresh_interval)

  -- What a synchronization of a token that is current leaves.
  pub record Outcome (tok : ManagedToken) (h : Host E)
      (r : Result Error (Option PostSyncAction) × ManagedToken × Host E) : Type 0 where
    pub later : HostAfter E label L h r.2
    pub same_label : r.1.label ≡ tok.label
    pub same_interval : r.1.refresh_interval ≡ tok.refresh_interval
    pub current : IsCurrent r.1 r.2
    pub recent :
        (a : Option PostSyncAction)
        → r.0 ≡ ok a
        → E.now h.world < L.attested r.2.world + tok.refresh_interval

  Outcome-Provided :
      (tok : ManagedToken) (h : Host E) (r : Result Error (Option PostSyncAction) × Host E)
      → 0 < tok.refresh_interval
      → IsCurrent tok h
      → HostAfter E label L h r.1
      → ((a : Option PostSyncAction) → r.0 ≡ ok a → E.now h.world ≤ L.attested r.1.world)
      → Outcome tok h (r.0, tok, r.1)
  Outcome-Provided tok h r p c l k = record {
    later = l;
    same_label = refl;
    same_interval = refl;
    current = ground arith;
    recent = λ a e. ground (arith, k a e);
  }

  Outcome-refreshed :
      (tok : ManagedToken) (h : Host E) (r : Result Error ManagedToken × Host E)
      → 0 < tok.refresh_interval
      → tok.next_refresh ≤ E.now h.world
      → ((tok' : ManagedToken)
          → r.0 ≡ ok tok'
          → tok' ≡ record tok { next_refresh = tok.next_refresh + tok.refresh_interval })
      → HostAfter E label L h r.1
      → ((tok' : ManagedToken) → r.0 ≡ ok tok' → E.now h.world ≤ L.attested r.1.world)
      → Outcome tok h (refreshed E 0 tok r)
  Outcome-refreshed tok h (err e, g) p due next l k = record {
    later = l;
    same_label = refl;
    same_interval = refl;
    current = ground arith;
    recent = λ a e'. absurd (ground arith);
  }
  Outcome-refreshed tok h (ok tok', g) p due next l k =
      let is = next tok' refl in
      let provided = k tok' refl in
      record {
        later = l;
        same_label = ground (arith, is);
        same_interval = ground (arith, is);
        current = inr (ground (arith, is, provided));
        recent = λ a e'. omega (arith, provided);
      }

  -- The step before changes the host only.
  Outcome-before :
      (tok : ManagedToken) (h g : Host E)
      {r : Result Error (Option PostSyncAction) × ManagedToken × Host E}
      → HostAfter E label L h g
      → Outcome tok g r
      → Outcome tok h r
  Outcome-before tok h g {r} l o = record {
    later = omega (arith, o.later);
    same_label = o.same_label;
    same_interval = o.same_interval;
    current = o.current;
    recent = λ a e. omega (arith, o.recent a e);
  }

  Outcome-failed :
      (tok : ManagedToken) (h g : Host E) (e : Error)
      → HostAfter E label L h g
      → IsCurrent tok h
      → Outcome tok h (err e, tok, g)
  Outcome-failed tok h g e l c = record {
    later = l;
    same_label = refl;
    same_interval = refl;
    current = ground arith;
    recent = λ a f. absurd (ground arith);
  }

  After-refl : (h : Host E) → HostAfter E label L h h
  After-refl h = omega arith

  module _ (more : ℕ) where
    case-Outcome :
        (online changed : Bool) (tok : ManagedToken) (h : Host E)
        → tok.label ≡ label
        → 0 < tok.refresh_interval
        → IsCurrent tok h
        → Outcome tok h (sync_case E more online changed tok h)
    unfolding sync_case
    case-Outcome true true tok h n p c =
        let u = update-Provided E label L more tok h in
        Outcome-Provided tok h (update E more tok h) p c u.0 (u.1 n)
    case-Outcome false changed tok h n p c =
        let u = add-Provided E label L more tok h in
        Outcome-Provided tok h (add E more tok h) p c u.0 (u.1 n)
    case-Outcome true false tok h n p c =
        let u = refresh-Provided E label L more tok h in
        elim (Bool-cases (leb tok.next_refresh (E.now h.world))) [
          | inl due ↦ rw due (
              Outcome-refreshed tok h (refresh E more tok h) p (ground arith)
                (refresh_next E label L more tok h) u.0 (u.1 n))
          | inr early ↦ rw early (record {
            later = After-refl h;
            same_label = refl;
            same_interval = refl;
            current = c;
            recent = λ a e. ground arith;
          })
        ]

    pub describe_After :
        (tok : ManagedToken) (h : Host E)
        → HostAfter E label L h (record h { world = (call_describe E tok.label tok.pin h.world).1 })
    unfolding call_describe
    describe_After tok h = L.rpc_later _ h.world

    source-Outcome :
        (changed : Bool) (tok : ManagedToken) (h : Host E)
        → tok.label ≡ label
        → 0 < tok.refresh_interval
        → IsCurrent tok h
        → Outcome tok h (sync_source E more changed tok h)
    unfolding sync_source
    source-Outcome changed tok h n p c =
        let d = call_describe E tok.label tok.pin h.world in
        let g : Host E = record h { world = d.1 } in
        let l = describe_After tok h in
        elim (Result-cases d.0) [
          | inr (error, e) ↦ rw (e, sync_source) (Outcome-failed tok h g (enclave_error error) l c)
          | inl (answer, e) ↦
              rw (e, sync_source)
                (Outcome-before tok h g l
                  (case-Outcome (is_ok answer) changed tok g n p (ground (arith, l))))
        ]

    -- Whatever the synchronization of a token does, in the end its next refresh is due, or no later
    -- than the refresh interval after the last time when it was provisioned.
    pub sync-Outcome :
        (tok : ManagedToken) (h : Host E)
        → tok.label ≡ label
        → 0 < tok.refresh_interval
        → IsCurrent tok h
        → Outcome tok h (sync E more tok h)
    unfolding sync
    sync-Outcome tok h n p c =
        let l = source_After E label L tok.db h in
        let g = (update_source E tok.db h).1 in
        elim (Result-cases (update_source E tok.db h).0) [
          | inr (error, e) ↦ rw (e, sync) (Outcome-failed tok h g error l c)
          | inl (x, e) ↦
              let o = source-Outcome x.1 (record tok { db = x.0 }) g n p (ground (arith, l)) in
              rw (e, sync)
                (Outcome-before tok h g l (record {
                  later = o.later;
                  same_label = o.same_label;
                  same_interval = o.same_interval;
                  current = o.current;
                  recent = o.recent;
                }))
        ]

    -- A synchronization that succeeds leaves a token that was provisioned less than its refresh
    -- interval before the synchronization began, if the token was current before it.
    pub sync-recent :
        (tok : ManagedToken) (h : Host E) (a : Option PostSyncAction)
        → tok.label ≡ label
        → 0 < tok.refresh_interval
        → IsCurrent tok h
        → (sync E more tok h).0 ≡ ok a
        → (E.now h.world < L.attested (sync E more tok h).2.world + tok.refresh_interval)
          × IsCurrent (sync E more tok h).1 (sync E more tok h).2
    sync-recent tok h a n p c e = let o = sync-Outcome tok h n p c in (o.recent a e, o.current)
