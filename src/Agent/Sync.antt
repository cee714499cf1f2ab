-- ===== src/Agent/Sync.antt =====
-- vtok_agent/src/agent/mod.rs: the agent, which synchronizes its tokens from time to time.
pub mod Kept
pub mod Recent
use aws_nitro_enclaves_acm.Prelude.{
  ℕ, zero, suc, ◌+◌, ◌*◌, ◌≡◌, Bool, true, false, not, Option, none, some, List, [], ◌∷◌, Bytes,
  bytes_eq, leb, if◌then◌else◌, Result, ok, err,
}
use aws_nitro_enclaves_acm.Rpc.Schema.{ApiError, ApiResponse, kms_decrypt_failed}
use aws_nitro_enclaves_acm.Agent.Config.{Options}
use aws_nitro_enclaves_acm.Agent.Config
use aws_nitro_enclaves_acm.Agent.Env.{Env, Host, EnclaveError}
use aws_nitro_enclaves_acm.Agent.Imds.{invalidate_cache}
use aws_nitro_enclaves_acm.Agent.Enclave.{call_remove}
use aws_nitro_enclaves_acm.Agent.Source.{
  Error, key_material_db_fetch_error, key_material_db_parse_error, file_db_error,
  file_db_parse_error, add_token_error, refresh_token_error,
}
use aws_nitro_enclaves_acm.Agent.Target.{
  ManagedService, PostSyncAction, restart_httpd, restart_nginx,
}
use aws_nitro_enclaves_acm.Agent.Restart.{execute}
use aws_nitro_enclaves_acm.Agent.Token.{ManagedToken, new_token, sync}

pub data AgentError : Type 0 where
  enclave_boot_timeout enclave_died : AgentError
  enclave_failed : EnclaveError → AgentError
  remove_token_error : ApiError → AgentError
  token_error : Error → AgentError

-- What becomes of a token that was synchronized.
pub data Verdict : Type 0 where
  fine : Option PostSyncAction → Verdict
  broken release : Verdict
  fatal : Error → Verdict

unfoldable pub judge_sync : Result Error (Option PostSyncAction) → Verdict
judge_sync (ok act) = fine act
judge_sync (err (key_material_db_fetch_error code text)) = broken
judge_sync (err key_material_db_parse_error) = broken
judge_sync (err file_db_error) = broken
judge_sync (err file_db_parse_error) = broken
judge_sync (err (add_token_error kms_decrypt_failed)) = broken
judge_sync (err (refresh_token_error kms_decrypt_failed)) = release
judge_sync (err e) = fatal e

-- A HashSet of actions.
unfoldable pub insert_action : Option PostSyncAction → List PostSyncAction → List PostSyncAction
insert_action none acts = acts
insert_action (some act) [] = act ∷ []
insert_action (some restart_httpd) (restart_httpd ∷ acts) = restart_httpd ∷ acts
insert_action (some restart_nginx) (restart_nginx ∷ acts) = restart_nginx ∷ acts
insert_action (some act) (other ∷ acts) = other ∷ insert_action (some act) acts

-- Of the loop so far: the labels of broken tokens, and the actions to run.
pub record Progress : Type 0 where
  pub broken_list : List Bytes
  pub post_actions : List PostSyncAction

abbrev pub is_broken : List Bytes → Bytes → Bool
is_broken [] label = false
is_broken (l ∷ ls) label = if bytes_eq l label then true else is_broken ls label

unfoldable pub retain_tokens : List Bytes → List ManagedToken → List ManagedToken
retain_tokens broken_list [] = []
retain_tokens broken_list (tok ∷ toks) =
    let rest = retain_tokens broken_list toks in
    if is_broken broken_list tok.label then rest else tok ∷ rest

module _ (E : Env) (more : ℕ) where
  abbrev pub removed : Result EnclaveError ApiResponse → Result AgentError (Unit {0})
  removed (err e) = err (enclave_failed e)
  removed (ok (err e)) = err (remove_token_error e)
  removed (ok (ok a)) = ok tt

  abbrev pub Step : Type 0
  Step = Result AgentError Progress × Host E

  unfoldable pub apply_verdict : Verdict → ManagedToken → Progress → Host E → Step
  apply_verdict (fine act) tok p h =
      (ok (record p { post_actions = insert_action act p.post_actions }), h)
  apply_verdict broken tok p h = (ok (record p { broken_list = tok.label ∷ p.broken_list }), h)
  apply_verdict (fatal e) tok p h = (err (token_error e), h)
  apply_verdict release tok p h =
      let r = call_remove E tok.label tok.pin h.world in
      let h' : Host E = record h { world = r.1 } in
      elim (removed r.0) [
        | err e ↦ (err e, h')
        | ok _ ↦ (ok (record p { broken_list = tok.label ∷ p.broken_list }), h')
      ]

  -- The loop over the tokens, each of which is changed in place.
  unfoldable pub sync_tokens :
      List ManagedToken
      → Progress
      → Host E
      → Result AgentError Progress × List ManagedToken × Host E
  unfolding apply_verdict judge_sync
  sync_tokens [] p h = (ok p, [], h)
  sync_tokens (tok ∷ toks) p h =
      let s = sync E more tok h in
      let v = apply_verdict (judge_sync s.0) s.1 p s.2 in
      elim v.0 [
        | err e ↦ (err e, s.1 ∷ toks, v.1)
        | ok p' ↦ let rest = sync_tokens toks p' v.1 in (rest.0, s.1 ∷ rest.1, rest.2)
      ]

  unfoldable pub execute_all : Options → List PostSyncAction → E.World → E.World
  execute_all options [] w = w
  execute_all options (act ∷ acts) w = execute_all options acts (execute E options act w)

  pub record Agent : Type 0 where
    pub tokens : List ManagedToken
    pub options : Options

  -- Agent::sync
  unfoldable pub sync_agent : Agent → Host E → Result AgentError (Unit {0}) × Agent × Host E
  unfolding sync_tokens retain_tokens execute_all
  sync_agent agent h =
      let r =
        sync_tokens agent.tokens (record { broken_list = []; post_actions = [] })
          (invalidate_cache E h) in
      elim r.0 [
        | err e ↦ (err e, record agent { tokens = r.1 }, r.2)
        | ok p ↦ (
          ok tt,
          record agent { tokens = retain_tokens p.broken_list r.1 },
          record r.2 { world = execute_all agent.options p.post_actions r.2.world },
        )
      ]

  -- The tokens of Agent::new: those that cannot be made are left out.
  unfoldable pub new_tokens :
      ManagedService → List Config.Token → Host E → List ManagedToken × Host E
  new_tokens service [] h = ([], h)
  new_tokens service (config ∷ configs) h =
      let r = new_token E service config h in
      let rest = new_tokens service configs r.1 in
      elim r.0 [ err e ↦ rest | ok tok ↦ (tok ∷ rest.0, rest.1) ]

  -- What the loop of `run` keeps, with the next time of a synchronization.
  pub record Running : Type 0 where
    pub agent : Agent
    pub next_sync : ℕ
    pub host : Host E

  abbrev pub sync_interval : Agent → ℕ
  sync_interval agent = agent.options.sync_interval_secs * 1000

  sleep_second : Running → Option (Result AgentError (Unit {0})) × Running
  sleep_second r =
      let w = (E.sleep 1000 r.host.world).1 in
      (if E.exiting w then some (ok tt) else none, record r { host = record r.host { world = w } })

  -- One round of `run`: whether the loop ends, with its result, and what is kept.
  unfoldable pub run_round : Running → Option (Result AgentError (Unit {0})) × Running
  unfolding sync_agent sleep_second
  run_round r =
      let s = sync_agent r.agent r.host in
      let next : Running = record {
        agent = s.1;
        next_sync = r.next_sync + sync_interval r.agent;
        host = s.2;
      } in
      if not (E.enclave_alive r.host.world)
      then (some (err enclave_died), r)
      else if leb r.next_sync (E.now r.host.world)
      then elim s.0 [
        | err e ↦ (some (err e), record r { agent = s.1; host = s.2 })
        | ok _ ↦ sleep_second next
      ]
      else sleep_second r
