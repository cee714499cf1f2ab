-- ===== src/Agent/Token.antt =====
-- vtok_agent/src/agent/mngtok.rs: a managed token and its synchronization.
pub mod Fresh
pub mod Current
pub mod Online
use aws_nitro_enclaves_acm.Prelude.{
  ℕ, ◌+◌, ◌*◌, ◌≡◌, Bool, true, false, Option, none, some, Bytes, leb, if◌then◌else◌, Result, ok,
  err, ok_or,
}
use aws_nitro_enclaves_acm.Prelude.Exec.{Exec, pure, lift, continue, ◌>>=◌, ◌>>◌}
use aws_nitro_enclaves_acm.Rpc.Schema.{ApiOk, ApiError, ApiResponse, EnvelopeKey, kms}
use aws_nitro_enclaves_acm.Rpc.Schema
use aws_nitro_enclaves_acm.Agent.Config.{Target, default_token_refresh_interval_secs}
use aws_nitro_enclaves_acm.Agent.Config
use aws_nitro_enclaves_acm.Agent.Env.{Env, Host, EnclaveError}
use aws_nitro_enclaves_acm.Agent.Imds.{get_with}
use aws_nitro_enclaves_acm.Agent.Enclave.{
  Call, call_add, call_refresh, call_update, call_describe, is_ok,
}
use aws_nitro_enclaves_acm.Agent.Source.{
  Error, DbSource, HostExec, imds, region, enclave_error, add_token_error, refresh_token_error,
  update_token_error, pin_generation_error, to_schema_keys, new_source, update_source,
}
use aws_nitro_enclaves_acm.Agent.Target.{
  ManagedService, PostSyncAction, bytes_to_hex, satisfy_target,
}

-- Times are in milliseconds.
pub record ManagedToken : Type 0 where
  pub label : Bytes
  pub pin : Bytes
  pub db : DbSource
  pub target : Option Target
  pub refresh_interval : ℕ
  pub next_refresh : ℕ
  pub service : ManagedService

module _ (E : Env) where
  abbrev read_random : ℕ → HostExec E (Option Bytes)
  read_random n h = let (bytes, w) = E.random n h.world in (ok bytes, record h { world = w })

  unfoldable pub generate_pkcs11_pin : HostExec E Bytes
  generate_pkcs11_pin = do
    bytes ← read_random 16
    random ← lift (ok_or bytes pin_generation_error)
    pure (bytes_to_hex random)

  pin_or_new : Option Bytes → HostExec E Bytes
  unfolding generate_pkcs11_pin
  pin_or_new none h = generate_pkcs11_pin h
  pin_or_new (some pin) h = (ok pin, h)

  abbrev pub interval_or : Option ℕ → ℕ
  interval_or none = default_token_refresh_interval_secs
  interval_or (some n) = n

  -- ManagedToken::new
  unfoldable pub new_token : ManagedService → Config.Token → HostExec E ManagedToken
  unfolding pin_or_new
  new_token service config = do
    pin ← pin_or_new config.pin
    db ← new_source E config.source
    (λ h. (
      ok (record {
        label = config.label;
        pin = pin;
        db = db;
        target = config.target;
        refresh_interval = interval_or config.refresh_interval_secs * 1000;
        next_refresh = E.now h.world;
        service = service;
      }),
      h,
    ))

  unfoldable pub kms_envelope_key : HostExec E EnvelopeKey
  kms_envelope_key = do
    creds ← imds E (get_with E (λ cache. cache.creds))
    region_name ← region E
    pure (kms region_name creds.access_key_id creds.secret_access_key creds.token)

  unfoldable pub to_schema_token : ManagedToken → HostExec E Schema.Token
  unfolding kms_envelope_key
  to_schema_token tok = do
    envelope_key ← kms_envelope_key
    pure (record {
      label = tok.label;
      pin = tok.pin;
      envelope_key = envelope_key;
      keys = to_schema_keys tok.db;
    })

  abbrev pub judge : (ApiError → Error) → Result EnclaveError ApiResponse → Result Error ApiOk
  judge f (err e) = err (enclave_error e)
  judge f (ok (err e)) = err (f e)
  judge f (ok (ok a)) = ok a

  -- A request, with both of its kinds of error.
  unfoldable pub ask : (ApiError → Error) → Call E → HostExec E ApiOk
  ask f call h = (judge f (call h.world).0, record h { world = (call h.world).1 })

  abbrev pub or_none : Result Error (Option PostSyncAction) → Result Error (Option PostSyncAction)
  or_none (ok a) = ok a
  or_none (err e) = ok none

  -- satisfy_target, whose failure is only logged.
  unfoldable pub try_target : ManagedToken → HostExec E (Option PostSyncAction)
  try_target tok h =
      let r = satisfy_target E tok.service tok.label tok.pin tok.db tok.target h in
      (or_none r.0, r.1)

  abbrev pub target_action : ManagedToken → Option Target → HostExec E (Option PostSyncAction)
  target_action tok none = pure none
  target_action tok (some t) = try_target tok

  -- The retry count of the requests is one more than `more`.
  module _ (more : ℕ) where
    unfoldable pub update : ManagedToken → HostExec E (Option PostSyncAction)
    unfolding to_schema_token ask
    update tok = do
      token ← to_schema_token tok
      answered ← ask update_token_error (call_update E more tok.label tok.pin token)
      target_action tok tok.target

    unfoldable pub add : ManagedToken → HostExec E (Option PostSyncAction)
    unfolding to_schema_token ask try_target
    add tok = do
      token ← to_schema_token tok
      answered ← ask add_token_error (call_add E more token)
      try_target tok

    -- The token is changed where the request went well.
    unfoldable pub refresh : ManagedToken → HostExec E ManagedToken
    unfolding kms_envelope_key ask
    refresh tok = do
      envelope_key ← kms_envelope_key
      answered ← ask refresh_token_error (call_refresh E more tok.label tok.pin envelope_key)
      pure (record tok { next_refresh = tok.next_refresh + tok.refresh_interval })

    -- What a synchronization leaves: its result, the token, and the host.
    abbrev pub Synced : Type 0
    Synced = Result Error (Option PostSyncAction) × ManagedToken × Host E

    abbrev pub unchanged : ManagedToken → Result Error (Option PostSyncAction) × Host E → Synced
    unchanged tok r = (r.0, tok, r.1)

    abbrev pub refreshed : ManagedToken → Result Error ManagedToken × Host E → Synced
    refreshed tok (ok tok', h) = (ok none, tok', h)
    refreshed tok (err e, h) = (err e, tok, h)

    -- The cases of `sync`, by whether the token is online and whether its source changed.
    unfoldable pub sync_case : Bool → Bool → ManagedToken → Host E → Synced
    unfolding update refresh add
    sync_case true true tok h = unchanged tok (update tok h)
    sync_case true false tok h =
        if leb tok.next_refresh (E.now h.world)
        then refreshed tok (refresh tok h)
        else (ok none, tok, h)
    sync_case false changed tok h = unchanged tok (add tok h)

    unfoldable pub sync_source : Bool → ManagedToken → Host E → Synced
    unfolding sync_case
    sync_source changed tok h =
        let d = call_describe E tok.label tok.pin h.world in
        let h' : Host E = record h { world = d.1 } in
        elim d.0 [
          | err e ↦ (err (enclave_error e), tok, h')
          | ok answer ↦ sync_case (is_ok answer) changed tok h'
        ]

    -- ManagedToken::sync
    unfoldable pub sync : ManagedToken → Host E → Synced
    unfolding sync_source
    sync tok h =
        let r = update_source E tok.db h in
        elim r.0 [
          | err e ↦ (err e, tok, r.1)
          | ok (db, changed) ↦ sync_source changed (record tok { db = db }) r.1
        ]
