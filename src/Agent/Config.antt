-- ===== src/Agent/Config.antt =====
-- vtok_agent/src/config.rs and the constants of main.rs. An absent field of the options has been
-- replaced by its default.
use aws_nitro_enclaves_acm.Prelude.{ℕ, ◌*◌, Bool, true, Option, Bytes, codes}

abbrev pub run_dir : Bytes
run_dir = codes "/run/nitro_enclaves/acm"

abbrev pub service_nginx : Bytes
service_nginx = codes "nginx"

abbrev pub service_httpd : Bytes
service_httpd = codes "httpd"

abbrev pub default_reload_wait_ms : ℕ
default_reload_wait_ms = 1000

abbrev pub default_sync_interval_secs : ℕ
default_sync_interval_secs = 600

abbrev pub default_token_refresh_interval_secs : ℕ
default_token_refresh_interval_secs = 12 * 3600

abbrev pub default_acm_bucket : Bytes
default_acm_bucket = codes "prod"

abbrev pub default_attestation_retry_count : ℕ
default_attestation_retry_count = 5

pub data Target : Type 0 where
  conf : (path : Bytes) (user group : Option Bytes) → Target

pub data Source : Type 0 where
  acm : (certificate_arn : Bytes) (bucket : Option Bytes) → Source
  s3 : (uri : Bytes) → Source
  file_db : (path : Bytes) → Source

pub record Token : Type 0 where
  pub label : Bytes
  pub pin : Option Bytes
  pub source : Source
  pub target : Option Target
  pub refresh_interval_secs : Option ℕ

pub record Options : Type 0 where
  pub service : Bytes
  pub force_start : Bool
  pub reload_wait_ms : ℕ
  pub sync_interval_secs : ℕ

unfoldable pub default_options : Options
default_options = record {
  service = service_nginx;
  force_start = true;
  reload_wait_ms = default_reload_wait_ms;
  sync_interval_secs = default_sync_interval_secs;
}
