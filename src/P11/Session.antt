-- ===== src/P11/Session.antt =====
-- vtok_p11/src/backend/session.rs
pub mod Chunks
pub mod Init
use aws_nitro_enclaves_acm.Prelude.{
  ℕ, ◌+◌, ◌-◌, ◌%◌, leb, ltb, Bool, true, false, not, ◌&&◌, ◌||◌, Option, none, some, List, [], ◌∷◌,
  length, take, drop, Result, ok, err, ok_or, map_err, guard, ◌>>=◌, ◌>>◌, if◌then◌else◌,
}
use aws_nitro_enclaves_acm.P11.Error.{
  Error, CryptoError, ck_error, crypto_error, key_handle_invalid, key_type_inconsistent,
  mechanism_invalid, user_not_logged_in,
}
use aws_nitro_enclaves_acm.Common.Defs.{u64_mod}
use aws_nitro_enclaves_acm.P11.Ck.Rv
use aws_nitro_enclaves_acm.P11.Ck.Flags
use aws_nitro_enclaves_acm.P11.Mechanism.{
  Mechanism, digest, rsa_pkcs, rsa_pkcs_pss, rsa_x509, ecdsa, is_multipart,
}
use aws_nitro_enclaves_acm.P11.Object.{
  Object, ObjectKind, rsa_private_key, rsa_public_key, ec_private_key, ec_public_key, is_private,
  is_mechanism,
}
use aws_nitro_enclaves_acm.P11.Object.Template.{match_attr_template}
use aws_nitro_enclaves_acm.P11.RawAttr.{CkRawAttr}
use aws_nitro_enclaves_acm.P11.Db.{Db, enumerate, object}
use aws_nitro_enclaves_acm.P11.Crypto.Evp.{Evp}
use aws_nitro_enclaves_acm.P11.Crypto.Pkey.{from_private_pem}
use aws_nitro_enclaves_acm.P11.Crypto.Digest.{DigestCtx, new_digest_ctx}
use aws_nitro_enclaves_acm.P11.Crypto.Sign
use aws_nitro_enclaves_acm.P11.Crypto.Verify
use aws_nitro_enclaves_acm.P11.Crypto.Crypt.{
  DirectEncryptCtx, DirectDecryptCtx, new_encrypt_ctx, new_decrypt_ctx,
}

pub record EnumCtx : Type 0 where
  pub handles : List ℕ
  pub index : ℕ

-- `cmp::min(self.index + count, self.handles.len())`, where the sum of two machine words wraps
-- around.
abbrev pub chunk_end : ℕ → EnumCtx → ℕ
chunk_end count ctx =
    let sum = (ctx.index + count) % u64_mod in
    if leb sum (length ctx.handles) then sum else length ctx.handles

-- The elements of `handles[index..end]`, and the context after them; none is a panic, which a range
-- that ends before it starts is.
abbrev pub chunk_to : ℕ → EnumCtx → Option (List ℕ × EnumCtx)
chunk_to end ctx =
    let ret = take (end - ctx.index) (drop ctx.index ctx.handles) in
    let after : EnumCtx = record ctx { index = ctx.index + length ret } in
    if ltb end ctx.index then none else some (ret, after)

-- Where the sum wraps around, the range ends before it starts; a build that checks for overflow
-- panics at the sum.
unfoldable pub next_chunk : ℕ → EnumCtx → Option (List ℕ × EnumCtx)
next_chunk count ctx = chunk_to (chunk_end count ctx) ctx

pub data SessionState : Type 0 where
  ro_public ro_user : SessionState

-- CK_SESSION_INFO
pub record SessionInfo : Type 0 where
  pub slot : ℕ
  pub state : ℕ
  pub flags : ℕ
  pub device_error : ℕ

unfoldable pub to_ck_state : SessionState → ℕ
to_ck_state ro_public = Flags.cks_ro_public_session
to_ck_state ro_user = Flags.cks_ro_user_functions

-- The boxes of the operations are none where the operation is not active.
pub record Session (E : Evp) : Type 0 where
  pub slot_id : ℕ
  pub state : SessionState
  pub db : Db
  pub enum_ctx : Option EnumCtx
  pub digest_ctx : Option (DigestCtx E)
  pub sign_ctx : Option (Sign.SignCtx E)
  pub verify_ctx : Option (Verify.VerifyCtx E)
  pub decrypt_ctx : Option (DirectDecryptCtx E)
  pub encrypt_ctx : Option (DirectEncryptCtx E)

-- Whether one object is listed: a private one to a logged in user only, and, without a template,
-- no mechanism.
abbrev passes : Bool → Option (List CkRawAttr) → Object → Bool
passes enable_private none o = (enable_private || not (is_private o)) && not (is_mechanism o)
passes enable_private (some tpl) o =
    (enable_private || not (is_private o)) && match_attr_template o tpl

abbrev pub pass_handles : Bool → Option (List CkRawAttr) → List (ℕ × Object) → List ℕ
pass_handles enable_private template [] = []
pass_handles enable_private template ((h, o) ∷ objects) =
    let rest = pass_handles enable_private template objects in
    if passes enable_private template o then h ∷ rest else rest

abbrev pub is_ro_user : SessionState → Bool
is_ro_user ro_user = true
is_ro_user ro_public = false

abbrev pub replaced {ℓ} : {A : Type ℓ} → Error → Result CryptoError A → Result Error A
replaced e (ok a) = ok a
replaced e (err _) = err e

module _ (E : Evp) where
  abbrev pub rsa_private : ObjectKind → Result Error E.EvpPkey
  rsa_private (rsa_private_key pem) = map_err crypto_error (from_private_pem E pem)
  rsa_private _ = err key_type_inconsistent

  abbrev pub ec_private : ObjectKind → Result Error E.EvpPkey
  ec_private (ec_private_key pem) = map_err crypto_error (from_private_pem E pem)
  ec_private _ = err key_type_inconsistent

  abbrev pub rsa_public : ObjectKind → Result Error E.EvpPkey
  rsa_public (rsa_public_key pem) = map_err crypto_error (from_private_pem E pem)
  rsa_public _ = err key_type_inconsistent

  abbrev pub ec_public : ObjectKind → Result Error E.EvpPkey
  ec_public (ec_public_key pem) = map_err crypto_error (from_private_pem E pem)
  ec_public _ = err key_type_inconsistent

  abbrev pub private_key : Mechanism → ObjectKind → Result Error E.EvpPkey
  private_key rsa_x509 kind = rsa_private kind
  private_key (rsa_pkcs _) kind = rsa_private kind
  private_key (rsa_pkcs_pss _ _) kind = rsa_private kind
  private_key (ecdsa _) kind = ec_private kind
  private_key (digest _) kind = err mechanism_invalid

  abbrev pub public_key : Mechanism → ObjectKind → Result Error E.EvpPkey
  public_key rsa_x509 kind = rsa_public kind
  public_key (rsa_pkcs _) kind = rsa_public kind
  public_key (rsa_pkcs_pss _ _) kind = rsa_public kind
  public_key (ecdsa _) kind = ec_public kind
  public_key (digest _) kind = err mechanism_invalid

module _ {E : Evp} where
  -- Session::new
  unfoldable pub new_session : ℕ → Db → SessionState → Session E
  new_session slot_id db state = record {
    slot_id = slot_id;
    state = state;
    db = db;
    enum_ctx = none;
    digest_ctx = none;
    sign_ctx = none;
    verify_ctx = none;
    decrypt_ctx = none;
    encrypt_ctx = none;
  }

  -- Session::ck_info
  unfoldable pub ck_session_info : Session E → SessionInfo
  unfolding to_ck_state
  ck_session_info s = record {
    slot = s.slot_id;
    state = to_ck_state s.state;
    flags = Flags.ckf_serial_session;
    device_error = Rv.ckr_ok;
  }

  -- Session::set_state
  unfoldable pub set_state : SessionState → Session E → Session E
  set_state state s = record s { state = state }

  unfoldable pub check_user_logged_in : Session E → Result Error (Unit {0})
  check_user_logged_in s = guard (is_ro_user s.state) user_not_logged_in

  -- Session::enum_init
  unfoldable pub enum_init : Option (List CkRawAttr) → Session E → Session E
  unfolding enumerate
  enum_init template s = record s {
    enum_ctx = some (record {
      handles = pass_handles (is_ro_user s.state) template (enumerate s.db);
      index = 0;
    });
  }

  abbrev chunk_of : ℕ → Session E → Option EnumCtx → Option (Option (List ℕ) × Session E)
  chunk_of count s none = some (none, s)
  chunk_of count s (some ctx) = elim (next_chunk count ctx) [
    | none ↦ none
    | some r ↦ some (some r.0, record s { enum_ctx = some r.1 })
  ]

  -- Session::enum_next_chunk; none is a panic.
  unfoldable pub enum_next_chunk : ℕ → Session E → Option (Option (List ℕ) × Session E)
  unfolding next_chunk
  enum_next_chunk count s = chunk_of count s s.enum_ctx

  abbrev finalized : Session E → Option EnumCtx → Result Error (Unit {0}) × Session E
  finalized s none = (err (ck_error Rv.ckr_operation_not_initialized), s)
  finalized s (some ctx) = (ok tt, record s { enum_ctx = none })

  -- Session::enum_finalize
  unfoldable pub enum_finalize : Session E → Result Error (Unit {0}) × Session E
  enum_finalize s = finalized s s.enum_ctx

  unfoldable pub private_key_for_mech : Session E → Mechanism → ℕ → Result Error E.EvpPkey
  unfolding object from_private_pem
  private_key_for_mech s mech key_handle = do
    key_obj ← ok_or (object s.db key_handle) key_handle_invalid
    private_key E mech key_obj.kind

  unfoldable pub public_key_for_mech : Session E → Mechanism → ℕ → Result Error E.EvpPkey
  unfolding object from_private_pem
  public_key_for_mech s mech key_handle = do
    key_obj ← ok_or (object s.db key_handle) key_handle_invalid
    public_key E mech key_obj.kind

  -- The session after an attempt to start an operation: it changes on success only.
  abbrev pub started {ℓ} :
      {A : Type ℓ}
      → (A → Session E)
      → Session E
      → Result Error A
      → Result Error (Unit {0}) × Session E
  started put s (ok ctx) = (ok tt, put ctx)
  started put s (err e) = (err e, s)

  -- Session::digest_init
  unfoldable pub digest_init : ℕ → Session E → Result Error (Unit {0}) × Session E
  unfolding new_digest_ctx
  digest_init mech_type s =
      started (λ ctx. record s { digest_ctx = some ctx }) s
        (replaced (ck_error Rv.ckr_mechanism_invalid) (new_digest_ctx E mech_type))

  abbrev pub sign_ctx_for : Mechanism → E.EvpPkey → Result Error (Sign.SignCtx E)
  sign_ctx_for mech pkey =
      if is_multipart mech
      then (do
        ctx ← map_err crypto_error (Sign.new_digest_sign_ctx E mech pkey)
        ok (Sign.by_digest ctx))
      else (do
        ctx ← map_err crypto_error (Sign.new_direct_sign_ctx E mech pkey)
        ok (Sign.directly ctx))

  -- Session::sign_init
  unfoldable pub sign_init : Mechanism → ℕ → Session E → Result Error (Unit {0}) × Session E
  unfolding check_user_logged_in private_key_for_mech is_multipart Sign.new_digest_sign_ctx
      Sign.new_direct_sign_ctx
  sign_init mech key_handle s =
      started (λ ctx. record s { sign_ctx = some ctx }) s
        (do
          check_user_logged_in s
          pkey ← private_key_for_mech s mech key_handle
          sign_ctx_for mech pkey)

  abbrev pub verify_ctx_for : Mechanism → E.EvpPkey → Result Error (Verify.VerifyCtx E)
  verify_ctx_for mech pkey =
      if is_multipart mech
      then (do
        ctx ← map_err crypto_error (Verify.new_digest_verify_ctx E mech pkey)
        ok (Verify.by_digest ctx))
      else (do
        ctx ← map_err crypto_error (Verify.new_direct_verify_ctx E mech pkey)
        ok (Verify.directly ctx))

  -- Session::verify_init
  unfoldable pub verify_init : Mechanism → ℕ → Session E → Result Error (Unit {0}) × Session E
  unfolding check_user_logged_in public_key_for_mech is_multipart Verify.new_digest_verify_ctx
      Verify.new_direct_verify_ctx
  verify_init mech key_handle s =
      started (λ ctx. record s { verify_ctx = some ctx }) s
        (do
          check_user_logged_in s
          pkey ← public_key_for_mech s mech key_handle
          verify_ctx_for mech pkey)

  -- Session::encrypt_init
  unfoldable pub encrypt_init : Mechanism → ℕ → Session E → Result Error (Unit {0}) × Session E
  unfolding check_user_logged_in public_key_for_mech is_multipart new_encrypt_ctx
  encrypt_init mech key_handle s =
      started (λ ctx. record s { encrypt_ctx = some ctx }) s
        (do
          check_user_logged_in s
          pkey ← public_key_for_mech s mech key_handle
          guard (not (is_multipart mech)) mechanism_invalid
          map_err crypto_error (new_encrypt_ctx E mech pkey))

  -- Session::decrypt_init
  unfoldable pub decrypt_init : Mechanism → ℕ → Session E → Result Error (Unit {0}) × Session E
  unfolding check_user_logged_in private_key_for_mech is_multipart new_decrypt_ctx
  decrypt_init mech key_handle s =
      started (λ ctx. record s { decrypt_ctx = some ctx }) s
        (do
          check_user_logged_in s
          pkey ← private_key_for_mech s mech key_handle
          guard (not (is_multipart mech)) mechanism_invalid
          map_err crypto_error (new_decrypt_ctx E mech pkey))
