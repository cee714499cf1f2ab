-- ===== src/Agent/Later/Whole.antt =====
-- vtok_agent: a synchronization of a token, of another token, and the restart of a web server do not
-- turn time back.
use aws_nitro_enclaves_acm.Prelude.{
  ℕ, ◌≡◌, refl, Bool, true, false, leb, Option, none, some, List, [], ◌∷◌, ◌++◌, Bytes, codes,
  Result, ok, err, arith, inl, inr, Result-cases, Bool-cases,
}
use aws_nitro_enclaves_acm.Rpc.Schema.{remove_token}
use aws_nitro_enclaves_acm.Agent.Config.{Options, service_nginx, service_httpd}
use aws_nitro_enclaves_acm.Agent.Env.{Env, Host}
use aws_nitro_enclaves_acm.Agent.Enclave.{call_describe, call_remove, is_ok}
use aws_nitro_enclaves_acm.Agent.Source.{Error, update_source}
use aws_nitro_enclaves_acm.Agent.Target.{PostSyncAction, restart_httpd, restart_nginx}
use aws_nitro_enclaves_acm.Agent.Restart.{
  is_service_running, override_service_config, graceful_stop, override_if, restart_webserver,
  execute, httpd_override_data,
}
use aws_nitro_enclaves_acm.Agent.Token.{
  ManagedToken, refresh, refreshed, sync_case, sync_source, sync,
}
use aws_nitro_enclaves_acm.Agent.Token.Fresh.{update-Provided, add-Provided, refresh-Provided}
use aws_nitro_enclaves_acm.Agent.Token.Current.{describe_After}
use aws_nitro_enclaves_acm.Agent.Later.{Attests, After, HostAfter, source_After}
use aws_nitro_enclaves_acm.Agent.Sync.{
  Verdict, fine, broken, release, fatal, Progress, removed, apply_verdict, judge_sync, sync_tokens,
  execute_all,
}

refreshed_host :
    (E : Env) (more : ℕ) (tok : ManagedToken) (r : Result Error ManagedToken × Host E)
    → (refreshed E more tok r).2 ≡ r.1
refreshed_host E more tok (ok tok', h) = refl
refreshed_host E more tok (err e, h) = refl

module _ (E : Env) (label : Bytes) (L : Attests E label) (more : ℕ) where
  case_After :
      (online changed : Bool) (tok : ManagedToken) (h : Host E)
      → HostAfter E label L h (sync_case E more online changed tok h).2
  unfolding sync_case
  case_After true true tok h = (update-Provided E label L more tok h).0
  case_After false changed tok h = (add-Provided E label L more tok h).0
  case_After true false tok h = elim (Bool-cases (leb tok.next_refresh (E.now h.world))) [
    | inr early ↦ rw early (omega arith)
    | inl due ↦ rw due (
        ground (
          arith,
          refreshed_host E more tok (refresh E more tok h),
          (refresh-Provided E label L more tok h).0,
        ))
  ]

  source_case_After :
      (changed : Bool) (tok : ManagedToken) (h : Host E)
      → HostAfter E label L h (sync_source E more changed tok h).2
  unfolding sync_source
  source_case_After changed tok h =
      let d = call_describe E tok.label tok.pin h.world in
      let g : Host E = record h { world = d.1 } in
      let l = describe_After E label L more tok h in
      elim (Result-cases d.0) [
        | inr (error, e) ↦ rw (e, sync_source) l
        | inl (answer, e) ↦
            rw (e, sync_source) (omega (arith, l, case_After (is_ok answer) changed tok g))
      ]

  pub sync_After : (tok : ManagedToken) (h : Host E) → HostAfter E label L h (sync E more tok h).2
  unfolding sync
  sync_After tok h =
      let l = source_After E label L tok.db h in
      let g = (update_source E tok.db h).1 in
      elim (Result-cases (update_source E tok.db h).0) [
        | inr (error, e) ↦ rw (e, sync) l
        | inl (x, e) ↦
            rw (e, sync) (omega (arith, l, source_case_After x.1 (record tok { db = x.0 }) g))
      ]

  pub verdict_After :
      (v : Verdict) (tok : ManagedToken) (p : Progress) (h : Host E)
      → HostAfter E label L h (apply_verdict E more v tok p h).1
  unfolding apply_verdict call_remove
  verdict_After (fine act) tok p h = omega arith
  verdict_After broken tok p h = omega arith
  verdict_After (fatal e) tok p h = omega arith
  verdict_After release tok p h =
      let r = E.rpc (remove_token tok.label tok.pin) h.world in
      let l = L.rpc_later (remove_token tok.label tok.pin) h.world in
      elim (Result-cases (removed E more (call_remove E tok.label tok.pin h.world).0)) [
        | inl (u, e) ↦ rw (e, apply_verdict) l
        | inr (error, e) ↦ rw (e, apply_verdict) l
      ]

  running_After : (name : Bytes) (w : E.World) → After E label L w (is_service_running E name w).1
  unfolding is_service_running
  running_After name w = L.command_later _ _ w

  stop_After :
      (n : ℕ) (pid : Option Bytes) (w : E.World) → After E label L w (graceful_stop E n (pid, w))
  stop_After n none w = omega arith
  stop_After n (some pid) w = omega (arith, L.signal_later pid w, L.wait_later n (E.signal pid w))

  override_After :
      (service config : Bytes) (w : E.World)
      → After E label L w (override_service_config E service config w)
  unfolding override_service_config
  override_After service config w =
      let fpath =
        (codes "/etc/systemd/system/" ++ (service ++ codes ".service.d"))
        ++ (codes "/" ++ (service ++ codes ".conf")) in
      let w1 = (E.create_dirs_for_file fpath w).1 in
      let w2 = (E.write_file fpath (config ∷ []) w1).1 in
      ground (
        arith,
        L.dirs_later fpath w,
        L.write_later fpath (config ∷ []) w1,
        L.command_later (codes "systemctl") (codes "daemon-reload" ∷ []) w2,
      )

  override_if-After :
      (service : Bytes) (config : Option Bytes) (w : E.World)
      → After E label L w (override_if E service config w)
  override_if-After service none w = omega arith
  override_if-After service (some config) w = override_After service config w

  restart_After :
      (service : Bytes) (n : ℕ) (config : Option Bytes) (w : E.World)
      → After E label L w (restart_webserver E service n config w)
  unfolding restart_webserver
  restart_After service n config w =
      let name = service ++ codes ".service" in
      let r = is_service_running E name w in
      let w1 = graceful_stop E n r in
      let w2 = override_if E service config w1 in
      omega (
        arith,
        running_After name w,
        stop_After n r.0 r.1,
        override_if-After service config w1,
        L.command_later (codes "systemctl") (codes "restart" ∷ name ∷ []) w2,
      )

  execute-After :
      (options : Options) (act : PostSyncAction) (w : E.World)
      → After E label L w (execute E options act w)
  unfolding execute
  execute-After options restart_nginx w = restart_After service_nginx options.reload_wait_ms none w
  execute-After options restart_httpd w =
      restart_After service_httpd options.reload_wait_ms (some httpd_override_data) w

  pub execute_all-After :
      (options : Options) (acts : List PostSyncAction) (w : E.World)
      → After E label L w (execute_all E more options acts w)
  unfolding execute_all
  execute_all-After options [] w = omega arith
  execute_all-After options (act ∷ acts) w =
      omega (
        arith,
        execute-After options act w,
        execute_all-After options acts (execute E options act w),
      )

  pub sync_tokens_After :
      (toks : List ManagedToken) (p : Progress) (h : Host E)
      → HostAfter E label L h (sync_tokens E more toks p h).2
  unfolding sync_tokens
  sync_tokens_After [] p h = omega arith
  sync_tokens_After (tok ∷ toks) p h =
      let s = sync E more tok h in
      let v = apply_verdict E more (judge_sync s.0) s.1 p s.2 in
      let l = sync_After tok h in
      let m = verdict_After (judge_sync s.0) s.1 p s.2 in
      elim (Result-cases v.0) [
        | inr (error, e) ↦ rw (e, sync_tokens) (omega (arith, l, m))
        | inl (p', e) ↦ rw (e, sync_tokens) (omega (arith, l, m, sync_tokens_After toks p' v.1))
      ]
