-- ===== src/Agent/Restart.antt =====
-- vtok_agent/src/agent/mod.rs, `PostSyncAction::execute`, with the systemd helpers of util.rs: how a
-- web server is told of a new configuration. Failures are only logged.
use aws_nitro_enclaves_acm.Prelude.{
  ℕ, Option, none, some, List, [], ◌∷◌, ◌++◌, Bytes, codes, if◌then◌else◌,
}
use aws_nitro_enclaves_acm.Rpc.Line.{decode, trim}
use aws_nitro_enclaves_acm.Agent.Config.{Options, service_nginx, service_httpd}
use aws_nitro_enclaves_acm.Agent.Env.{Env, Output}
use aws_nitro_enclaves_acm.Agent.Imds.{split_byte}
use aws_nitro_enclaves_acm.Agent.Target.{PostSyncAction, restart_httpd, restart_nginx}

abbrev pub httpd_override_data : Bytes
httpd_override_data =
    codes "[Service]\nType=forking\nExecStart=\nExecStart=/usr/sbin/httpd $OPTIONS -k start\n"

-- The first part of `rsplit("=")`.
last_part : List Bytes → Bytes
last_part [] = []
last_part (w ∷ []) = w
last_part (v ∷ w ∷ ws) = last_part (w ∷ ws)

module _ (E : Env) where
  pid_of_line : Option Bytes → Option Bytes
  unfolding last_part
  pid_of_line none = none
  pid_of_line (some line) =
      let pid = last_part (split_byte b'=' (trim line)) in if E.is_i32 pid then some pid else none

  pid_of_output : Option Output → Option Bytes
  unfolding pid_of_line
  pid_of_output none = none
  pid_of_output (some out) = if out.success then pid_of_line (decode out.stdout) else none

  -- is_service_running: the number of its main process, if that can be had.
  unfoldable pub is_service_running : Bytes → E.World → Option Bytes × E.World
  unfolding pid_of_output
  is_service_running name w =
      let (out, w') =
        E.command (codes "systemctl") (codes "show" ∷ codes "--property=MainPID" ∷ name ∷ []) w in
      (pid_of_output out, w')

  unfoldable pub override_service_config : Bytes → Bytes → E.World → E.World
  override_service_config service config_string w =
      let dir = codes "/etc/systemd/system/" ++ (service ++ codes ".service.d") in
      let fpath = dir ++ (codes "/" ++ (service ++ codes ".conf")) in
      let (made, w1) = E.create_dirs_for_file fpath w in
      let (written, w2) = E.write_file fpath (config_string ∷ []) w1 in
      let w3 = (E.command (codes "systemctl") (codes "daemon-reload" ∷ []) w2).1 in
      if E.exists fpath w then w else if made then (if written then w3 else w2) else w1

  abbrev pub graceful_stop : ℕ → Option Bytes × E.World → E.World
  graceful_stop wait_ms (none, w) = w
  graceful_stop wait_ms (some pid, w) = E.wait wait_ms (E.signal pid w)

  abbrev pub override_if : Bytes → Option Bytes → E.World → E.World
  override_if service none w = w
  override_if service (some config_string) w = override_service_config service config_string w

  unfoldable pub restart_webserver : Bytes → ℕ → Option Bytes → E.World → E.World
  unfolding is_service_running override_service_config
  restart_webserver service wait_ms config w =
      let service_name = service ++ codes ".service" in
      let w1 = graceful_stop wait_ms (is_service_running service_name w) in
      let w2 = override_if service config w1 in
      (E.command (codes "systemctl") (codes "restart" ∷ service_name ∷ []) w2).1

  unfoldable pub execute : Options → PostSyncAction → E.World → E.World
  unfolding restart_webserver
  execute options restart_nginx w = restart_webserver service_nginx options.reload_wait_ms none w
  execute options restart_httpd w =
      restart_webserver service_httpd options.reload_wait_ms (some httpd_override_data) w
