-- ===== src/Agent/Later.antt =====
-- vtok_agent: what the agent relies on of time and of the enclave, and that none of its steps turns
-- it back.
pub mod Calls
pub mod Whole
use aws_nitro_enclaves_acm.Prelude.{
  codes, ℕ, ◌≤◌, ◌≡◌, refl, Bool, true, false, Option, none, some, List, [], ◌∷◌, Bytes,
  if◌then◌else◌, Result, ok, err, ok_or, ◌++◌, Result-cases, inl, inr, arith,
}
use native.Mathlib.Nat.{le_refl, le_trans}
use aws_nitro_enclaves_acm.Prelude.Exec.{Exec, continue, ◌>>=◌}
use aws_nitro_enclaves_acm.Rpc.Schema.{
  ApiRequest, ApiOk, add_token, describe_device, describe_token, refresh_token, remove_token,
  update_token,
}
use aws_nitro_enclaves_acm.Agent.Env.{Env, Host, ImdsError, ImdsCache, Output}
use aws_nitro_enclaves_acm.Agent.Imds.{
  WorldExec, get_session_token, fetch, profile_role, role_of_output, role_by_name, fetch_role_arn,
  fetch_creds, load_cache, get_with, fetch_role_name, fetch_partition, fetch_region,
}
use aws_nitro_enclaves_acm.Agent.Source.{
  Error, DbSource, acm_db, s3_db, keys_db, HostExec, imds, new_acm_db_s3_uri, run_command,
  fetch_from_s3, update_source,
}

-- A request that provisions the token with a label, if it is answered well.
abbrev pub Provisions : ApiRequest → Bytes → Type 0
Provisions (add_token token) label = token.label ≡ label
Provisions (refresh_token l pin envelope_key) label = l ≡ label
Provisions (update_token l pin token) label = l ≡ label
Provisions describe_device label = ⊥
Provisions (describe_token l pin) label = ⊥
Provisions (remove_token l pin) label = ⊥

-- Time went on, and the token was not provisioned less recently.
abbrev pub Later : (E : Env) → (E.World → ℕ) → E.World → E.World → Type 0
Later E attested v w = (E.now v ≤ E.now w) × (attested v ≤ attested w)

-- The clock never goes back, and `attested` is the last time when the enclave got the key material
-- of the token by attestation, which it does while it answers such a request well.
pub record Attests (E : Env) (label : Bytes) : Type 0 where
  pub attested : E.World → ℕ
  pub command_later :
      (p : Bytes) (args : List Bytes) (w : E.World) → Later E attested w (E.command p args w).1
  pub sleep_later : (n : ℕ) (w : E.World) → Later E attested w (E.sleep n w).1
  pub rpc_later : (request : ApiRequest) (w : E.World) → Later E attested w (E.rpc request w).1
  pub read_later : (path : Bytes) (w : E.World) → Later E attested w (E.read_file path w).1
  pub lines_later : (path : Bytes) (w : E.World) → Later E attested w (E.read_by_lines path w).1
  pub write_later :
      (path : Bytes) (parts : List Bytes) (w : E.World)
      → Later E attested w (E.write_file path parts w).1
  pub config_later :
      (path : Bytes) (uid gid : Option ℕ) (text : Bytes) (w : E.World)
      → Later E attested w (E.write_config path uid gid text w).1
  pub dirs_later :
      (path : Bytes) (w : E.World) → Later E attested w (E.create_dirs_for_file path w).1
  pub wait_later : (n : ℕ) (w : E.World) → Later E attested w (E.wait n w)
  pub signal_later : (pid : Bytes) (w : E.World) → Later E attested w (E.signal pid w)
  pub provisions :
      (request : ApiRequest) (w : E.World) (a : ApiOk)
      → Provisions request label
      → (E.rpc request w).0 ≡ ok (ok a)
      → E.now w ≤ attested (E.rpc request w).1

module _ (E : Env) (label : Bytes) (L : Attests E label) where
  abbrev pub After : E.World → E.World → Type 0
  After = Later E L.attested

  abbrev pub HostAfter : Host E → Host E → Type 0
  HostAfter g h = After g.world h.world

  fetch-After : (key token : Bytes) (w : E.World) → After w (fetch E key token w).1
  unfolding fetch
  fetch-After key token w = L.command_later _ _ w

  session_After : (w : E.World) → After w (get_session_token E w).1
  unfolding get_session_token
  session_After w = L.command_later _ _ w

  profile_After :
      (token role_name : Bytes) (w : E.World) → After w (profile_role E token role_name w).1
  unfolding profile_role
  profile_After token role_name w =
      ground (arith, fetch-After (codes "/latest/meta-data/iam/info") token w)

  role_of_After :
      (token role_name : Bytes) (out : Option Output) (w : E.World)
      → After w (role_of_output E token role_name out w).1
  unfolding role_of_output
  role_of_After token role_name none w = ground arith
  role_of_After token role_name (some out) w = ground (arith, profile_After token role_name w)

  role_by_name-After : (token : Bytes) (w : E.World) → After w (role_by_name E token w).1
  unfolding role_by_name
  role_by_name-After token w = elim (Result-cases (fetch_role_name E token w).0) [
    | inl (role, e) ↦
        let w1 = (fetch_role_name E token w).1 in
        let args = codes "iam" ∷ codes "get-role" ∷ codes "--role-name" ∷ role ∷ [] in
        let (out, w2) = E.command (codes "aws") args w1 in
        ground (
          arith,
          e,
          fetch-After (codes "/latest/meta-data/iam/security-credentials") token w,
          L.command_later (codes "aws") args w1,
          role_of_After token role out w2,
        )
    | inr (error, e) ↦
        ground (arith, e, fetch-After (codes "/latest/meta-data/iam/security-credentials") token w)
  ]

  role_arn_After : (token : Bytes) (w : E.World) → After w (fetch_role_arn E token w).1
  unfolding fetch_role_arn
  role_arn_After token w =
      let (tag, w1) = fetch E (codes "/latest/meta-data/tags/instance/InstanceRoleArn") token w in
      ground (
        arith,
        fetch-After (codes "/latest/meta-data/tags/instance/InstanceRoleArn") token w,
        role_by_name-After token w1,
      )

  creds_After : (token : Bytes) (w : E.World) → After w (fetch_creds E token w).1
  unfolding fetch_creds
  creds_After token w = elim (Result-cases (fetch_role_name E token w).0) [
    | inl (role, e) ↦ ground (
      arith,
      e,
      fetch-After (codes "/latest/meta-data/iam/security-credentials") token w,
      fetch-After (codes "/latest/meta-data/iam/security-credentials/" ++ role) token
          (fetch_role_name E token w).1,
    )
    | inr (error, e) ↦
        ground (arith, e, fetch-After (codes "/latest/meta-data/iam/security-credentials") token w)
  ]

  load_cache-After : (w : E.World) → After w (load_cache E w).1
  unfolding load_cache
  load_cache-After w = elim (Result-cases (get_session_token E w).0) [
    | inr (error, e) ↦ ground (arith, e, session_After w)
    | inl (token, e) ↦
        let w1 = (get_session_token E w).1 in
        let w2 = (fetch_partition E token w1).1 in
        let w3 = (fetch_region E token w2).1 in
        let w4 = (fetch_role_arn E token w3).1 in
        ground (
          arith,
          e,
          session_After w,
          fetch-After (codes "/latest/meta-data/services/partition") token w1,
          fetch-After (codes "/latest/meta-data/placement/region") token w2,
          role_arn_After token w3,
          creds_After token w4,
        )
  ]

  pub get_with_After :
      {R : Type 0} (getter : ImdsCache → R) (h : Host E) → HostAfter h (get_with E getter h).1
  unfolding get_with
  get_with_After getter h = ground (arith, load_cache-After h.world)

  uri_After :
      (cert_arn bucket : Bytes) (h : Host E) → HostAfter h (new_acm_db_s3_uri E cert_arn bucket h).1
  unfolding new_acm_db_s3_uri
  uri_After cert_arn bucket h =
      let h1 = (get_with E (λ cache. cache.partition) h).1 in
      let h2 = (get_with E (λ cache. cache.region) h1).1 in
      ground (
        arith,
        get_with_After (λ cache. cache.partition) h,
        get_with_After (λ cache. cache.region) h1,
        get_with_After (λ cache. cache.role_arn) h2,
      )

  s3_After : (uri : Bytes) (h : Host E) → HostAfter h (fetch_from_s3 E uri h).1
  unfolding fetch_from_s3 run_command
  s3_After uri h = elim (Result-cases (get_with E (λ cache. cache.region) h).0) [
    | inr (error, e) ↦ ground (arith, e, get_with_After (λ cache. cache.region) h)
    | inl (region_name, e) ↦
        let h1 = (get_with E (λ cache. cache.region) h).1 in
        ground (
          arith,
          e,
          get_with_After (λ cache. cache.region) h,
          L.command_later (codes "aws")
              (codes "s3" ∷ codes "--region" ∷ region_name ∷ codes "cp" ∷ uri ∷ codes "-" ∷ [])
              h1.world,
        )
  ]

  pub source_After : (db : DbSource) (h : Host E) → HostAfter h (update_source E db h).1
  unfolding update_source
  source_After (keys_db db) h = ground arith
  source_After (s3_db uri db) h = ground (arith, s3_After uri h)
  source_After (acm_db cert_arn db bucket) h =
      elim (Result-cases (new_acm_db_s3_uri E cert_arn bucket h).0) [
        | inr (error, e) ↦ ground (arith, e, uri_After cert_arn bucket h)
        | inl (uri, e) ↦ ground (
          arith,
          e,
          uri_After cert_arn bucket h,
          s3_After uri (new_acm_db_s3_uri E cert_arn bucket h).1,
        )
      ]
