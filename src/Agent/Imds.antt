-- ===== src/Agent/Imds.antt =====
-- vtok_agent/src/imds.rs: the instance metadata, with its cache.
use aws_nitro_enclaves_acm.Prelude.{
  ℕ, Bool, true, false, ◌&&◌, Option, none, some, List, [], ◌∷◌, ◌++◌, map, Bytes, codes, ◌==◌,
  if◌then◌else◌, from_utf8, Result, ok, err, ok_or,
}
use aws_nitro_enclaves_acm.Prelude.Exec.{Exec, pure, lift, ◌>>=◌}
use aws_nitro_enclaves_acm.Agent.Env.{
  Env, Host, Output, ImdsError, io_error, utf8_error, parse_error, process_error, ImdsCache,
  SecurityCredentials,
}

-- The part of a text up to a byte, and the rest.
unfoldable pub split_byte : ℕ → Bytes → List Bytes
split_byte b [] = [] ∷ []
split_byte b (c ∷ cs) =
    let rest = split_byte b cs in
    if c == b then [] ∷ rest else elim rest [ [] ↦ (c ∷ []) ∷ [] | w ∷ ws ↦ (c ∷ w) ∷ ws ]

unfoldable pub join_byte : ℕ → List Bytes → Bytes
join_byte b [] = []
join_byte b (w ∷ []) = w
join_byte b (v ∷ w ∷ ws) = v ++ b ∷ join_byte b (w ∷ ws)

abbrev pub starts_with : Bytes → Bytes → Bool
starts_with [] text = true
starts_with (p ∷ ps) [] = false
starts_with (p ∷ ps) (c ∷ cs) = p == c && starts_with ps cs

-- `find` of a text in a word, as to whether it is there.
unfoldable pub contains : Bytes → Bytes → Bool
contains part [] = starts_with part []
contains part (c ∷ cs) =
    let later = contains part cs in if starts_with part (c ∷ cs) then true else later

-- The role of an instance profile, by the name of the role.
unfoldable pub role_of_profile : Bytes → Bytes → Bytes
unfolding split_byte join_byte contains
role_of_profile role_name profile_arn = join_byte b':' (
    map
      (λ word.
        if contains (codes "instance-profile/") word then codes "role/" ++ role_name else word)
      (split_byte b':' profile_arn))

module _ (E : Env) where
  abbrev pub WorldExec : Type 0 → Type 0
  WorldExec A = Exec E.World ImdsError A

  unfoldable pub text_of : Option Output → Result ImdsError Bytes
  text_of none = err io_error
  text_of (some out) =
      if out.success
      then ok_or (from_utf8 out.stdout) utf8_error
      else err (process_error out.code out.stderr)

  unfoldable pub get_session_token : WorldExec Bytes
  unfolding text_of
  get_session_token w =
      let (out, w') =
        E.command (codes "curl")
          (codes "-X"
            ∷ codes "PUT"
            ∷ codes "http://169.254.169.254/latest/api/token"
            ∷ codes "-H"
            ∷ codes "X-aws-ec2-metadata-token-ttl-seconds: 600"
            ∷ [])
          w in
      (text_of out, w')

  unfoldable pub fetch : Bytes → Bytes → WorldExec Bytes
  unfolding text_of
  fetch key token w =
      let (out, w') =
        E.command (codes "curl")
          (codes "-H"
            ∷ (codes "X-aws-ec2-metadata-token: " ++ token)
            ∷ codes "-fs"
            ∷ (codes "http://169.254.169.254" ++ key)
            ∷ [])
          w in
      (text_of out, w')

  abbrev pub fetch_partition : Bytes → WorldExec Bytes
  fetch_partition = fetch (codes "/latest/meta-data/services/partition")

  abbrev pub fetch_region : Bytes → WorldExec Bytes
  fetch_region = fetch (codes "/latest/meta-data/placement/region")

  abbrev pub fetch_role_name : Bytes → WorldExec Bytes
  fetch_role_name = fetch (codes "/latest/meta-data/iam/security-credentials")

  -- The role by the instance's profile, where the AWS command line does not tell it.
  unfoldable pub profile_role : Bytes → Bytes → WorldExec Bytes
  unfolding fetch
  profile_role token role_name = do
    info ← fetch (codes "/latest/meta-data/iam/info") token
    profile_arn ← lift (ok_or (E.instance_profile_arn_from_json info) parse_error)
    pure (role_of_profile role_name profile_arn)

  unfoldable pub role_of_output : Bytes → Bytes → Option Output → WorldExec Bytes
  role_of_output token role_name none = lift (err io_error)
  role_of_output token role_name (some out) =
      if out.success
      then lift (elim (from_utf8 out.stdout) [
        | none ↦ err utf8_error
        | some text ↦ ok_or (E.role_arn_from_json text) parse_error
      ])
      else profile_role token role_name

  unfoldable pub role_by_name : Bytes → WorldExec Bytes
  unfolding role_of_output
  role_by_name token = do
    role_name ← fetch_role_name token
    out ← (λ w.
        let (o, w') =
          E.command (codes "aws")
            (codes "iam" ∷ codes "get-role" ∷ codes "--role-name" ∷ role_name ∷ []) w in
        (ok o, w'))
    role_of_output token role_name out

  unfoldable pub fetch_role_arn : Bytes → WorldExec Bytes
  unfolding fetch role_by_name
  fetch_role_arn token w =
      let (tag, w') = fetch (codes "/latest/meta-data/tags/instance/InstanceRoleArn") token w in
      elim tag [ ok arn ↦ (ok arn, w') | err _ ↦ role_by_name token w' ]

  unfoldable pub fetch_creds : Bytes → WorldExec SecurityCredentials
  fetch_creds token = do
    role_name ← fetch_role_name token
    text ← fetch (codes "/latest/meta-data/iam/security-credentials/" ++ role_name) token
    lift (ok_or (E.creds_from_json text) parse_error)

  -- ImdsCache::new
  unfoldable pub load_cache : WorldExec ImdsCache
  unfolding get_session_token fetch fetch_role_arn fetch_creds
  load_cache = do
    token ← get_session_token
    partition ← fetch_partition token
    region ← fetch_region token
    role_arn ← fetch_role_arn token
    creds ← fetch_creds token
    pure (record { partition = partition; region = region; role_arn = role_arn; creds = creds })

  unfoldable pub get_with : {R : Type 0} → (ImdsCache → R) → Exec (Host E) ImdsError R
  unfolding load_cache
  get_with getter h = elim h.cache [
    | some cache ↦ (ok (getter cache), h)
    | none ↦ elim (load_cache h.world).0 [
      | err e ↦ (err e, record h { world = (load_cache h.world).1 })
      | ok cache ↦
          (ok (getter cache), record { cache = some cache; world = (load_cache h.world).1 })
    ]
  ]

  unfoldable pub invalidate_cache : Host E → Host E
  invalidate_cache h = record h { cache = none }
