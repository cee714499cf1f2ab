-- ===== src/Agent/Target.antt =====
-- vtok_agent/src/agent/mngtok.rs `satisfy_target`, with agent/nginx.rs, agent/httpd.rs and the helpers
-- of util.rs: the configuration of the web server that uses a key.
pub mod Rewrite
use aws_nitro_enclaves_acm.Prelude.{
  ℕ, ◌≡◌, Bool, true, false, Option, none, some, List, [], ◌∷◌, ◌++◌, Bytes, codes, hex_lower,
  bytes_eq, from_utf8, ◌==◌, if◌then◌else◌, Result, ok, err, guard, ok_or,
}
use aws_nitro_enclaves_acm.Prelude.Exec.{pure, lift, continue, ◌>>=◌, ◌>>◌}
use aws_nitro_enclaves_acm.Rpc.Schema.{PrivateKey}
use aws_nitro_enclaves_acm.Agent.Config.{Target, conf, run_dir, service_nginx, service_httpd}
use aws_nitro_enclaves_acm.Agent.Env.{Env, Host, FileError, io, nix}
use aws_nitro_enclaves_acm.Agent.Imds.{split_byte, starts_with}
use aws_nitro_enclaves_acm.Agent.Source.{
  Error, DbSource, HostExec, source_db_empty, managed_service_unknown, nix_error, bad_user,
  bad_group, target_io_error, to_schema_keys, source_cert_pem, source_cert_chain_pem,
}

pub data ManagedService : Type 0 where
  nginx httpd : ManagedService

unfoldable pub service_of : Bytes → Result Error ManagedService
service_of service =
    if bytes_eq service service_nginx
    then ok nginx
    else if bytes_eq service service_httpd
    then ok httpd
    else err managed_service_unknown

pub data PostSyncAction : Type 0 where
  restart_httpd restart_nginx : PostSyncAction

unfoldable pub bytes_to_hex : Bytes → Bytes
bytes_to_hex [] = []
bytes_to_hex (b ∷ bs) = hex_lower b ++ bytes_to_hex bs

unfoldable pub agent_key_uri : Bytes → ℕ → Bytes → Bytes → Bytes
agent_key_uri label key_id key_label pin =
    codes "pkcs11:model=p11ne-token;manufacturer=Amazon;token="
    ++ (label
        ++ (codes ";id=%"
            ++ (hex_lower key_id
                ++ (codes ";object=" ++ (key_label ++ (codes ";type=private?pin-value=" ++ pin))))))

abbrev pub quoted : Bytes → Bytes → Bytes
quoted name value = name ++ (codes " \"" ++ (value ++ codes "\""))

-- What NginxService::write_tls_entries writes.
unfoldable pub nginx_entries : Bytes → Option Bytes → Bytes
nginx_entries key_uri none =
    codes "ssl_certificate_key \"engine:pkcs11:" ++ (key_uri ++ codes "\";\n")
nginx_entries key_uri (some cp) =
    codes "ssl_certificate_key \"engine:pkcs11:"
    ++ (key_uri ++ (codes "\";\n" ++ (codes "ssl_certificate \"" ++ (cp ++ codes "\";\n"))))

-- One line of HttpdService::write_tls_entries.
unfoldable pub rewrite_line : Bytes → Option Bytes → Bytes → Bytes
rewrite_line key_uri cert_path l =
    if starts_with (codes "SSLCertificateKeyFile") l
    then quoted (codes "SSLCertificateKeyFile") key_uri
    else if starts_with (codes "SSLCertificateFile") l
    then elim cert_path [ none ↦ l | some cp ↦ quoted (codes "SSLCertificateFile") cp ]
    else l

-- A carriage return at the end of a line belongs to its line end.
unfoldable pub strip_return : Bytes → Bytes
strip_return [] = []
strip_return (c ∷ []) = if c == 13 then [] else c ∷ []
strip_return (c ∷ d ∷ cs) = c ∷ strip_return (d ∷ cs)

-- `lines`: what follows the last line feed is a line only if it is not empty.
unfoldable pub lines_of : List Bytes → List Bytes
unfolding strip_return
lines_of [] = []
lines_of (l ∷ []) = elim l [ [] ↦ [] | c ∷ cs ↦ (c ∷ cs) ∷ [] ]
lines_of (l ∷ m ∷ ls) = strip_return l ∷ lines_of (m ∷ ls)

-- A line that is no UTF-8 text is left out.
unfoldable pub rewrite_lines : Bytes → Option Bytes → List Bytes → Bytes
unfolding rewrite_line
rewrite_lines key_uri cert_path [] = []
rewrite_lines key_uri cert_path (l ∷ ls) =
    let rest = rewrite_lines key_uri cert_path ls in
    elim (from_utf8 l) [
      | none ↦ rest
      | some text ↦ rewrite_line key_uri cert_path text ++ b'\n' ∷ rest
    ]

unfoldable pub httpd_entries : Bytes → Option Bytes → Bytes → Bytes
unfolding lines_of rewrite_lines
httpd_entries key_uri cert_path text =
    rewrite_lines key_uri cert_path (lines_of (split_byte b'\n' text))

module _ (E : Env) where
  abbrev pub of_file : Result FileError (Unit {0}) → Result Error (Unit {0})
  of_file (ok u) = ok u
  of_file (err io) = err target_io_error
  of_file (err nix) = err nix_error

  unfoldable pub install : Bytes → Option ℕ → Option ℕ → Bytes → HostExec E (Unit {0})
  install path uid gid text h =
      let (res, w) = E.write_config path uid gid text h.world in
      (of_file res, record h { world = w })

  -- A part of the host that says whether it went well.
  abbrev pub checked : (E.World → Bool × E.World) → HostExec E (Unit {0})
  checked op h = let (went, w) = op h.world in (guard went target_io_error, record h { world = w })

  -- The file that the lines are taken from. Only a failure to open it is an error.
  unfoldable pub read_target : Bytes → HostExec E Bytes
  read_target path h =
      let (text, w) = E.read_by_lines path h.world in
      (ok_or text target_io_error, record h { world = w })

  unfoldable pub write_tls_entries :
      ManagedService → Bytes → Option ℕ → Option ℕ → Bytes → Option Bytes → HostExec E (Unit {0})
  unfolding install read_target
  write_tls_entries nginx path uid gid key_uri cert_path =
      install path uid gid (nginx_entries key_uri cert_path)
  write_tls_entries httpd path uid gid key_uri cert_path = do
    text ← read_target path
    install path uid gid (httpd_entries key_uri cert_path text)

  abbrev pub account : Bytes → Error → Option (Option ℕ) → Result Error (Option ℕ)
  account name unknown none = err nix_error
  account name unknown (some none) = err unknown
  account name unknown (some (some n)) = ok (some n)

  unfoldable pub user_number : Option Bytes → HostExec E (Option ℕ)
  user_number none h = (ok none, h)
  user_number (some name) h = (account name (bad_user name) (E.user_id name h.world), h)

  unfoldable pub group_number : Option Bytes → HostExec E (Option ℕ)
  group_number none h = (ok none, h)
  group_number (some name) h = (account name (bad_group name) (E.group_id name h.world), h)

  abbrev pub cert_name : ManagedService → Bytes
  cert_name nginx = codes "nginx-cert"
  cert_name httpd = codes "httpd-cert"

  unfoldable pub cert_path_of : ManagedService → Bytes → Bytes
  cert_path_of service label =
      run_dir
      ++ (codes "/" ++ (cert_name service ++ (codes "-" ++ (bytes_to_hex label ++ codes ".pem"))))

  abbrev pub cert_parts : Bytes → Option Bytes → List Bytes
  cert_parts cert none = cert ∷ []
  cert_parts cert (some chain) = cert ∷ codes "\n" ∷ chain ∷ []

  -- The file with the certificate and its chain, if the source has one.
  unfoldable pub write_cert : ManagedService → Bytes → DbSource → HostExec E (Option Bytes)
  unfolding cert_path_of
  write_cert service label db = elim (source_cert_pem db) [
    | none ↦ pure none
    | some cert ↦ do
      checked
          (E.write_file (cert_path_of service label) (cert_parts cert (source_cert_chain_pem db)))
      pure (some (cert_path_of service label))
  ]

  abbrev pub action_of : ManagedService → PostSyncAction
  action_of nginx = restart_nginx
  action_of httpd = restart_httpd

  abbrev pub first_key : List PrivateKey → Result Error PrivateKey
  first_key [] = err source_db_empty
  first_key (key ∷ keys) = ok key

  -- The files of a target: the certificate, the directories, and the configuration.
  unfoldable pub write_target :
      ManagedService
      → Bytes
      → DbSource
      → Bytes
      → Option ℕ
      → Option ℕ
      → Bytes
      → HostExec E (Option PostSyncAction)
  unfolding write_tls_entries write_cert
  write_target service label db path uid gid key_uri = do
    cert_path ← write_cert service label db
    checked (E.create_dirs_for_file path)
    write_tls_entries service path uid gid key_uri cert_path
    pure (some (action_of service))

  -- satisfy_target, whose restart hint is always set.
  unfoldable pub satisfy_target :
      ManagedService → Bytes → Bytes → DbSource → Option Target → HostExec E (Option PostSyncAction)
  unfolding write_target user_number group_number
  satisfy_target service label pin db none = do
    key ← lift (first_key (to_schema_keys db))
    pure none
  satisfy_target service label pin db (some (conf path user group)) = do
    key ← lift (first_key (to_schema_keys db))
    uid ← user_number user
    gid ← group_number group
    write_target service label db path uid gid (agent_key_uri label key.id key.label pin)
