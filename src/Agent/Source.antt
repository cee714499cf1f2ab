-- ===== src/Agent/Source.antt =====
-- vtok_agent/src/agent/mngtok.rs: the sources of key material.
use aws_nitro_enclaves_acm.Prelude.{
  ℕ, Bool, false, not, ◌&&◌, Option, none, some, List, [], ◌∷◌, ◌++◌, Bytes, codes, bytes_eq,
  if◌then◌else◌, Result, ok, err, ok_or, map_err,
}
use aws_nitro_enclaves_acm.Prelude.Exec.{Exec, pure, lift, ◌>>=◌}
use aws_nitro_enclaves_acm.Rpc.Schema.{ApiError, PrivateKey}
use aws_nitro_enclaves_acm.Agent.Config.{Source, acm, s3, file_db, default_acm_bucket}
use aws_nitro_enclaves_acm.Agent.Env.{Env, Host, Output, EnclaveError, ImdsError, KeyMaterialDb}
use aws_nitro_enclaves_acm.Agent.Imds.{get_with}

pub data Error : Type 0 where
  key_material_db_fetch_error : Option ℕ → Bytes → Error
  key_material_db_parse_error : Error
  add_token_error : ApiError → Error
  aws_cli_exec_error : Error
  bad_group bad_user : Bytes → Error
  enclave_error : EnclaveError → Error
  file_db_error file_db_parse_error nix_error : Error
  imds_error : ImdsError → Error
  pin_generation_error : Error
  refresh_token_error : ApiError → Error
  source_db_empty : Error
  update_token_error : ApiError → Error
  target_io_error managed_service_unknown : Error

pub data DbSource : Type 0 where
  acm_db : (cert_arn : Bytes) (db : KeyMaterialDb) (bucket : Bytes) → DbSource
  s3_db : (uri : Bytes) (db : KeyMaterialDb) → DbSource
  keys_db : (db : List PrivateKey) → DbSource

-- The derived equality.
unfoldable pub same_db : KeyMaterialDb → KeyMaterialDb → Bool
same_db a b =
    bytes_eq a.certificate b.certificate
    && bytes_eq a.certificate_chain b.certificate_chain
    && bytes_eq a.encrypted_private_key b.encrypted_private_key
    && bytes_eq a.encryption_method b.encryption_method

-- KeyMaterialSchemaBuilder
pub record KeyMaterialSchemaBuilder : Type 0 where
  pub label : Bytes
  pub encrypted_pem_b64 : Bytes
  pub cert_pem : Option Bytes
  pub cert_chain_pem : Option Bytes

abbrev pub with_chain : Option Bytes → Option Bytes → Option Bytes
with_chain none chain = none
with_chain (some c) none = some c
with_chain (some c) (some ch) = some (c ++ ch)

unfoldable pub build : KeyMaterialSchemaBuilder → List PrivateKey
build b =
    record {
      encrypted_pem_b64 = b.encrypted_pem_b64;
      id = 1;
      label = b.label;
      cert_pem = with_chain b.cert_pem b.cert_chain_pem;
    }
    ∷ []

unfoldable pub source_cert_pem : DbSource → Option Bytes
source_cert_pem (acm_db cert_arn db bucket) = some db.certificate
source_cert_pem (s3_db uri db) = some db.certificate
source_cert_pem (keys_db db) = none

unfoldable pub source_cert_chain_pem : DbSource → Option Bytes
source_cert_chain_pem (acm_db cert_arn db bucket) = some db.certificate_chain
source_cert_chain_pem (s3_db uri db) = some db.certificate_chain
source_cert_chain_pem (keys_db db) = none

abbrev pub built : Bytes → KeyMaterialDb → DbSource → List PrivateKey
built label db source = build (record {
  label = label;
  encrypted_pem_b64 = db.encrypted_private_key;
  cert_pem = source_cert_pem source;
  cert_chain_pem = source_cert_chain_pem source;
})

unfoldable pub to_schema_keys : DbSource → List PrivateKey
unfolding build source_cert_pem source_cert_chain_pem
to_schema_keys (keys_db db) = db
to_schema_keys (acm_db cert_arn db bucket) = built (codes "acm-key") db (acm_db cert_arn db bucket)
to_schema_keys (s3_db uri db) = built (codes "s3-key") db (s3_db uri db)

module _ (E : Env) where
  abbrev pub HostExec : Type 0 → Type 0
  HostExec A = Exec (Host E) Error A

  -- A field of the instance metadata.
  abbrev pub imds : {R : Type 0} → Exec (Host E) ImdsError R → HostExec R
  imds m h = (map_err (λ e. imds_error e) (m h).0, (m h).1)

  abbrev pub region : HostExec Bytes
  region = imds (get_with E (λ cache. cache.region))

  unfoldable pub new_acm_db_s3_uri : Bytes → Bytes → HostExec Bytes
  new_acm_db_s3_uri cert_arn bucket = do
    partition ← imds (get_with E (λ cache. cache.partition))
    region_name ← region
    role_arn ← imds (get_with E (λ cache. cache.role_arn))
    pure (
        codes "s3://"
        ++ (partition
            ++ (codes "-ec2-enclave-certificate-"
                ++ (region_name
                    ++ (codes "-"
                        ++ (bucket ++ (codes "/" ++ (role_arn ++ (codes "/" ++ cert_arn)))))))))

  unfoldable pub db_of_output : Option Output → Result Error KeyMaterialDb
  db_of_output none = err aws_cli_exec_error
  db_of_output (some out) =
      if out.success
      then ok_or (E.db_from_json out.stdout) key_material_db_parse_error
      else err (key_material_db_fetch_error out.code out.stderr)

  unfoldable pub run_command : Bytes → List Bytes → HostExec (Option Output)
  run_command program args h =
      let (out, w) = E.command program args h.world in (ok out, record h { world = w })

  unfoldable pub fetch_from_s3 : Bytes → HostExec KeyMaterialDb
  unfolding db_of_output run_command
  fetch_from_s3 s3_uri = do
    region_name ← region
    out ←
        run_command (codes "aws")
          (codes "s3" ∷ codes "--region" ∷ region_name ∷ codes "cp" ∷ s3_uri ∷ codes "-" ∷ [])
    lift (db_of_output out)

  unfoldable pub file_db_of : Option Bytes → Result Error (List PrivateKey)
  file_db_of none = err file_db_error
  file_db_of (some text) = ok_or (E.file_db_from_json text) file_db_parse_error

  unfoldable pub fetch_file_db : Bytes → HostExec (List PrivateKey)
  unfolding file_db_of
  fetch_file_db path h =
      let (text, w) = E.read_file path h.world in (file_db_of text, record h { world = w })

  abbrev pub bucket_or : Option Bytes → Bytes
  bucket_or none = default_acm_bucket
  bucket_or (some b) = b

  -- DbSource::new
  unfoldable pub new_source : Source → HostExec DbSource
  new_source (acm certificate_arn bucket) = do
    uri ← new_acm_db_s3_uri certificate_arn (bucket_or bucket)
    db ← fetch_from_s3 uri
    pure (acm_db certificate_arn db (bucket_or bucket))
  new_source (s3 uri) = do db ← fetch_from_s3 uri; pure (s3_db uri db)
  new_source (file_db path) = do db ← fetch_file_db path; pure (keys_db db)

  -- DbSource::update: the source as it is now, and whether it changed.
  unfoldable pub update_source : DbSource → HostExec (DbSource × Bool)
  unfolding same_db
  update_source (acm_db cert_arn db bucket) = do
    uri ← new_acm_db_s3_uri cert_arn bucket
    new_db ← fetch_from_s3 uri
    pure (acm_db cert_arn new_db bucket, not (same_db new_db db))
  update_source (s3_db uri db) = do
    new_db ← fetch_from_s3 uri
    pure (s3_db uri new_db, not (same_db new_db db))
  update_source (keys_db db) = pure (keys_db db, false)
