-- ===== src/Agent/Examples/Tokens.antt =====
-- The agent at concrete inputs: a host on which each call takes a millisecond, and on which each
-- request that provisions a token succeeds.
use aws_nitro_enclaves_acm.Prelude.{
  ℕ, ◌+◌, ◌≡◌, ◌≤◌, refl, Bool, true, false, Option, none, some, List, [], ◌∷◌, map, Bytes, codes,
  ok, err, arith, inl, All, from_utf8,
}
use aws_nitro_enclaves_acm.Rpc.Schema.{
  ApiRequest, ApiResponse, ApiOk, ApiError, nothing, add_token, describe_device, describe_token,
  refresh_token, remove_token, update_token, PrivateKey, token_not_found, kms,
}
use aws_nitro_enclaves_acm.Rpc.Schema
use aws_nitro_enclaves_acm.Agent.Config.{default_options}
use aws_nitro_enclaves_acm.Agent.Env.{Env, Host}
use aws_nitro_enclaves_acm.Agent.Imds.{split_byte, get_with, invalidate_cache}
use aws_nitro_enclaves_acm.Agent.Enclave.{retry_rpc, retry, call_refresh, call_describe}
use aws_nitro_enclaves_acm.Agent.Enclave.Retries.{retry_rpc-retry}
use aws_nitro_enclaves_acm.Agent.Source.{keys_db, update_source, to_schema_keys}
use aws_nitro_enclaves_acm.Agent.Target.{
  PostSyncAction, nginx, quoted, httpd_entries, rewrite_line, strip_return,
}
use aws_nitro_enclaves_acm.Agent.Target.Rewrite.{IsLine, unlines, httpd_entries_twice}
use aws_nitro_enclaves_acm.Agent.Later.{Attests}
use aws_nitro_enclaves_acm.Agent.Token.{ManagedToken, sync, to_schema_token}
use aws_nitro_enclaves_acm.Agent.Token.Online.{Adds, asked_host, sync-Adds}
use aws_nitro_enclaves_acm.Agent.Sync.{Agent, sync_agent, sync_tokens}
use aws_nitro_enclaves_acm.Agent.Sync.Kept.{IsGood, IsRecent}
use aws_nitro_enclaves_acm.Agent.Sync.Recent.{sync_agent-IsRecent}

-- The enclave knows the token, or has lost it.
abbrev answer_of : Bool → ApiRequest → ApiResponse
answer_of true request = ok nothing
answer_of false (describe_token label pin) = err token_not_found
answer_of false request = ok nothing

-- The world is the clock.
abbrev ticking : Bool → Env
ticking knows = record {
  World = ℕ;
  now = λ w. w;
  command = λ p args w.
      (some (record { success = true; code = some 0; stdout = codes "x"; stderr = [] }), w + 1);
  sleep = λ n w. (false, w + 1);
  rpc = λ request w. (ok (answer_of knows request), w + 1);
  read_file = λ path w. (none, w + 1);
  read_by_lines = λ path w. (none, w + 1);
  write_file = λ path parts w. (true, w + 1);
  write_config = λ path uid gid text w. (ok tt, w + 1);
  create_dirs_for_file = λ path w. (true, w + 1);
  exists = λ path w. true;
  wait = λ n w. w + n;
  signal = λ pid w. w + 1;
  enclave_alive = λ w. true;
  exiting = λ w. false;
  is_i32 = λ t. true;
  user_id = λ name w. none;
  group_id = λ name w. none;
  random = λ n w. (none, w + 1);
  db_from_json = λ t. none;
  file_db_from_json = λ t. none;
  instance_profile_arn_from_json = λ t. none;
  role_arn_from_json = λ t. none;
  creds_from_json = λ t. some (record {
    access_key_id = codes "id";
    secret_access_key = codes "secret";
    token = codes "session";
  });
}

ticking-Attests : (knows : Bool) (label : Bytes) → Attests (ticking knows) label
ticking-Attests knows label = record {
  attested = λ w. w;
  command_later = λ p args w. omega arith;
  sleep_later = λ n w. omega arith;
  rpc_later = λ request w. omega arith;
  read_later = λ path w. omega arith;
  lines_later = λ path w. omega arith;
  write_later = λ path parts w. omega arith;
  config_later = λ path uid gid text w. omega arith;
  dirs_later = λ path w. omega arith;
  wait_later = λ n w. omega arith;
  signal_later = λ pid w. omega arith;
  provisions = λ request w a p e. omega arith;
}

abbrev key_material : PrivateKey
key_material = record {
  encrypted_pem_b64 = codes "pem";
  id = 1;
  label = codes "web";
  cert_pem = none;
}

abbrev managed : ManagedToken
managed = record {
  label = codes "acm";
  pin = codes "1234";
  db = keys_db (key_material ∷ []);
  target = none;
  refresh_interval = 1000;
  next_refresh = 40;
  service = nginx;
}

abbrev host : (knows : Bool) → Host (ticking knows)
host knows = record { cache = none; world = 50 }

abbrev agent : Agent (ticking true) 4
agent = record { tokens = managed ∷ []; options = default_options }

agent_succeeds : (sync_agent (ticking true) 4 agent (host true)).0 ≡ ok tt
unfolding sync_agent sync_tokens sync update_source call_describe invalidate_cache get_with
    from_utf8 call_refresh retry
agent_succeeds = refl

sync_agent-IsRecent_example :
    All
      (λ tok.
        IsGood
          (ticking true)
          (ticking-Attests true)
          4
          (sync_agent (ticking true) 4 agent (host true)).2
          tok
        × IsRecent
            (ticking true)
            (ticking-Attests true)
            4
            (host true)
            (sync_agent (ticking true) 4 agent (host true)).2
            tok)
      (sync_agent (ticking true) 4 agent (host true)).1.tokens
sync_agent-IsRecent_example =
    sync_agent-IsRecent (ticking true) (ticking-Attests true) 4 agent (host true)
      ((omega arith, inl (omega arith)), tt) agent_succeeds

retry_rpc-retry_example :
    retry_rpc (ticking false) 9 5 1 (describe_token [] []) 50
    ≡ some (retry (ticking false) 4 1 (describe_token [] []) 50)
retry_rpc-retry_example =
    retry_rpc-retry (ticking false) 5 9 (describe_token [] []) 50 (omega arith) (omega arith)

-- Five requests and four waits.
five_requests : retry (ticking false) 4 1 (describe_token [] []) 50 ≡ (ok (err token_not_found), 59)
unfolding retry
five_requests = refl

-- With a retry count of 0 the number of rounds is never met.
no_limit : retry_rpc (ticking false) 300 0 1 (describe_token [] []) 50 ≡ none
unfolding retry_rpc
no_limit = refl

abbrev added_token : Schema.Token
added_token = record {
  label = codes "acm";
  pin = codes "1234";
  envelope_key = kms (codes "x") (codes "id") (codes "secret") (codes "session");
  keys = key_material ∷ [];
}

abbrev ready_host : Host (ticking false)
ready_host =
    (to_schema_token (ticking false) managed (asked_host (ticking false) managed (host false))).1

lost-Adds : Adds (ticking false) 4 0 managed (host false)
unfolding update_source to_schema_token get_with from_utf8 to_schema_keys
lost-Adds = record {
  db = keys_db (key_material ∷ []);
  changed = false;
  fetched = refl;
  reason = token_not_found;
  offline = refl;
  token = added_token;
  ready = ready_host;
  credentials = refl;
  recovers = (nothing, refl);
  rounds = omega arith;
}

sync-Adds_example :
    ((a : Option PostSyncAction) × ((sync (ticking false) 4 managed (host false)).0 ≡ ok a))
    × (50
        ≤ (ticking-Attests false (codes "acm")).attested
            (sync (ticking false) 4 managed (host false)).2.world)
sync-Adds_example =
    sync-Adds (ticking false) 4 0 managed (host false) (ticking-Attests false (codes "acm"))
      lost-Adds

abbrev config_lines : List Bytes
config_lines = codes "Listen 443" ∷ codes "SSLCertificateKeyFile \"old\"" ∷ []

config-IsLine : All IsLine config_lines
unfolding strip_return from_utf8
config-IsLine = (
  record { no_feed = ground arith; no_return = refl; utf8 = refl },
  (record { no_feed = ground arith; no_return = refl; utf8 = refl }, tt),
)

uri-IsLine : IsLine (quoted (codes "SSLCertificateKeyFile") (codes "pkcs11:a"))
unfolding strip_return from_utf8
uri-IsLine = record { no_feed = ground arith; no_return = refl; utf8 = refl }

httpd_entries_twice_example :
    (httpd_entries (codes "pkcs11:a") none (unlines config_lines)
      ≡ unlines (map (rewrite_line (codes "pkcs11:a") none) config_lines))
    × (httpd_entries
          (codes "pkcs11:a")
          none
          (httpd_entries (codes "pkcs11:a") none (unlines config_lines))
        ≡ httpd_entries (codes "pkcs11:a") none (unlines config_lines))
httpd_entries_twice_example =
    httpd_entries_twice (codes "pkcs11:a") none config_lines config-IsLine uri-IsLine
      (λ cp e. absurd (ground arith))

rewritten :
    httpd_entries (codes "pkcs11:a") none (unlines config_lines)
    ≡ codes "Listen 443\nSSLCertificateKeyFile \"pkcs11:a\"\n"
unfolding httpd_entries split_byte from_utf8
rewritten = refl
