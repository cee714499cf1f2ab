-- ===== src/Agent/Later/Calls.antt =====
-- vtok_agent: the requests to the enclave and the configuration of the web server do not turn time
-- back.
use aws_nitro_enclaves_acm.Prelude.{
  ℕ, zero, suc, ◌+◌, ◌≤◌, ◌≡◌, refl, Option, none, some, Bytes, ok, arith, inl, inr, Result-cases,
  Option-cases,
}
use aws_nitro_enclaves_acm.Prelude.Exec.{◌>>=◌}
use aws_nitro_enclaves_acm.Rpc.Schema.{ApiRequest, ApiOk}
use aws_nitro_enclaves_acm.Agent.Env.{Env, Host}
use aws_nitro_enclaves_acm.Agent.Config.{Target, conf}
use aws_nitro_enclaves_acm.Agent.Enclave.{retry, backoff}
use aws_nitro_enclaves_acm.Agent.Source.{
  DbSource, source_cert_pem, source_cert_chain_pem, to_schema_keys,
}
use aws_nitro_enclaves_acm.Agent.Target.{
  ManagedService, nginx, httpd, satisfy_target, write_target, write_tls_entries, write_cert,
  install, read_target, user_number, group_number, nginx_entries, httpd_entries, cert_path_of,
  cert_parts, checked, first_key, agent_key_uri,
}
use aws_nitro_enclaves_acm.Agent.Later.{Attests, Provisions, After, HostAfter}

module _ (E : Env) (label : Bytes) (L : Attests E label) where
  pub retry-After :
      (left count : ℕ) (request : ApiRequest) (w : E.World)
      → After E label L w (retry E left count request w).1
  unfolding retry
  retry-After zero count request w = L.rpc_later request w
  retry-After (suc left) count request w =
      let w1 = (E.rpc request w).1 in
      let w2 = (E.sleep (backoff count) w1).1 in
      ground (
        arith,
        L.rpc_later request w,
        L.sleep_later (backoff count) w1,
        retry-After left (count + 1) request w2,
      )

  pub retry-Provisions :
      (left count : ℕ) (request : ApiRequest) (w : E.World) (a : ApiOk)
      → Provisions request label
      → (retry E left count request w).0 ≡ ok (ok a)
      → E.now w ≤ L.attested (retry E left count request w).1
  unfolding retry
  retry-Provisions zero count request w a p e = L.provisions request w a p e
  retry-Provisions (suc left) count request w a p e =
      let w1 = (E.rpc request w).1 in
      let w2 = (E.sleep (backoff count) w1).1 in
      elim (Result-cases (E.rpc request w).0) [
        | inr (error, f) ↦ absurd (ground (arith, f))
        | inl (answer, f) ↦ elim (Result-cases answer) [
          | inl (b, g) ↦ ground (arith, f, g, L.provisions request w b p)
          | inr (error, g) ↦ ground (
            arith,
            f,
            g,
            L.rpc_later request w,
            L.sleep_later (backoff count) w1,
            retry-Provisions left (count + 1) request w2 a p,
          )
        ]
      ]

  install_After :
      (path : Bytes) (uid gid : Option ℕ) (text : Bytes) (h : Host E)
      → HostAfter E label L h (install E path uid gid text h).1
  unfolding install
  install_After path uid gid text h = L.config_later path uid gid text h.world

  read_After : (path : Bytes) (h : Host E) → HostAfter E label L h (read_target E path h).1
  unfolding read_target
  read_After path h = L.lines_later path h.world

  tls_After :
      (service : ManagedService) (path : Bytes) (uid gid : Option ℕ) (uri : Bytes)
      (cert : Option Bytes) (h : Host E)
      → HostAfter E label L h (write_tls_entries E service path uid gid uri cert h).1
  unfolding write_tls_entries
  tls_After nginx path uid gid uri cert h = install_After path uid gid (nginx_entries uri cert) h
  tls_After httpd path uid gid uri cert h =
      let r = read_target E path h in
      elim (Result-cases r.0) [
        | inl (text, e) ↦ ground (
          arith,
          e,
          read_After path h,
          install_After path uid gid (httpd_entries uri cert text) r.1,
        )
        | inr (error, e) ↦ ground (arith, e, read_After path h)
      ]

  user_After : (name : Option Bytes) (h : Host E) → (user_number E name h).1 ≡ h
  unfolding user_number
  user_After none h = refl
  user_After (some name) h = refl

  group_After : (name : Option Bytes) (h : Host E) → (group_number E name h).1 ≡ h
  unfolding group_number
  group_After none h = refl
  group_After (some name) h = refl

  cert_After :
      (service : ManagedService) (l : Bytes) (db : DbSource) (h : Host E)
      → HostAfter E label L h (write_cert E service l db h).1
  unfolding write_cert
  cert_After service l db h = elim (Option-cases (source_cert_pem db)) [
    | inl e ↦ ground (arith, e)
    | inr (cert, e) ↦ ground (
      arith,
      e,
      L.write_later (cert_path_of E service l) (cert_parts E cert (source_cert_chain_pem db))
          h.world,
    )
  ]

  write_target_After :
      (service : ManagedService) (l : Bytes) (db : DbSource) (path : Bytes) (uid gid : Option ℕ)
      (uri : Bytes) (h : Host E)
      → HostAfter E label L h (write_target E service l db path uid gid uri h).1
  unfolding write_target
  write_target_After service l db path uid gid uri h =
      let r = write_cert E service l db h in
      let s = checked E (E.create_dirs_for_file path) r.1 in
      elim (Result-cases r.0) [
        | inl (cert, e) ↦ ground (
          arith,
          e,
          cert_After service l db h,
          L.dirs_later path r.1.world,
          tls_After service path uid gid uri cert s.1,
        )
        | inr (error, e) ↦ ground (arith, e, cert_After service l db h)
      ]

  accounts_After :
      (service : ManagedService) (l : Bytes) (db : DbSource) (path : Bytes)
      (user group : Option Bytes) (uri : Bytes) (h : Host E)
      → HostAfter E label L h
          ((user_number E user >>= (λ uid.
              group_number E group >>= (λ gid. write_target E service l db path uid gid uri)))
            h).1
  accounts_After service l db path user group uri h =
      let r = user_number E user h in
      let s = group_number E group r.1 in
      elim (Result-cases r.0) [
        | inr (error, e) ↦ ground (arith, e, user_After user h)
        | inl (uid, e) ↦ elim (Result-cases s.0) [
          | inr (error, f) ↦ ground (arith, e, f, user_After user h, group_After group r.1)
          | inl (gid, f) ↦ ground (
            arith,
            e,
            f,
            user_After user h,
            group_After group r.1,
            write_target_After service l db path uid gid uri s.1,
          )
        ]
      ]

  pub satisfy_target_After :
      (service : ManagedService) (l pin : Bytes) (db : DbSource) (target : Option Target)
      (h : Host E)
      → HostAfter E label L h (satisfy_target E service l pin db target h).1
  unfolding satisfy_target
  satisfy_target_After service l pin db none h = ground arith
  satisfy_target_After service l pin db (some (conf path user group)) h =
      elim (Result-cases (first_key E (to_schema_keys db))) [
        | inr (error, e) ↦ rw e (ground arith)
        | inl (key, e) ↦
            rw e
              (accounts_After service l db path user group (agent_key_uri l key.id key.label pin) h)
      ]
