-- ===== src/P11/Token.antt =====
-- vtok_p11/src/backend/token.rs and slot.rs. The map of sessions holds each session in place of the
-- lock around it; a poisoned lock is not modelled.
pub mod Login
pub mod Within
use aws_nitro_enclaves_acm.Prelude.{
  ℕ, ◌==◌, Bool, true, false, not, ltb, leb, Option, none, some, List, [], ◌∷◌, length, Bytes,
  bytes_eq, is_some, if◌then◌else◌, Result, ok, err, ok_or, map_err, guard, ◌>>=◌, ◌>>◌,
}
use aws_nitro_enclaves_acm.Prelude.Assoc.{Assoc, get, insert, remove, update_all}
use aws_nitro_enclaves_acm.Common.Defs.{token_max_sessions}
use aws_nitro_enclaves_acm.Common.Config
use aws_nitro_enclaves_acm.P11.Error.{
  TokenError, DbError, db_load, mech_not_found, pin_incorrect, session_count, bad_session_handle,
  already_logged_in, not_logged_in, uninitialised,
}
use aws_nitro_enclaves_acm.P11.Mechanism.{Mechanism, ck_type}
use aws_nitro_enclaves_acm.P11.Object.{Object, ObjectKind, mechanism}
use aws_nitro_enclaves_acm.P11.Db.{Db, enumerate}
use aws_nitro_enclaves_acm.P11.Crypto.Evp.{Evp}
use aws_nitro_enclaves_acm.P11.Session.{
  Session, SessionState, ro_public, ro_user, new_session, set_state,
}

pub record Token (E : Evp) : Type 0 where
  pub slot_id : ℕ
  pub label : Bytes
  pub sessions : Assoc (Session E)
  pub db : Option Db
  pub user_login : Bool
  pub expiry_ts : ℕ

-- Db::from_token_config, which reads the keys and the certificates of a token.
abbrev pub DbLoader : Type 0
DbLoader = Config.Token → Result DbError Db

abbrev pub login_state : Bool → SessionState
login_state true = ro_user
login_state false = ro_public

abbrev pin_of : Option Db → Result TokenError Bytes
pin_of none = err uninitialised
pin_of (some db) = ok db.token_pin

module _ {E : Evp} where
  -- Token::from_config
  unfoldable pub from_config : DbLoader → ℕ → Config.Token → Result TokenError (Token E)
  from_config load_db slot_id token_config = do
    db ← map_err db_load (load_db token_config)
    ok (record {
      slot_id = slot_id;
      label = token_config.label;
      sessions = [];
      db = some db;
      user_login = false;
      expiry_ts = token_config.expiry_ts;
    })

  -- Token::has_expired, by the clock.
  unfoldable pub has_expired : ℕ → Token E → Bool
  has_expired now t = ltb t.expiry_ts now

  -- Token::refresh
  unfoldable pub refresh : ℕ → Token E → Token E
  refresh new_expiry_ts t =
      if not (new_expiry_ts == t.expiry_ts) then record t { expiry_ts = new_expiry_ts } else t

  abbrev opened : ℕ → Token E → Option Db → Result TokenError (Unit {0}) × Token E
  opened handle t none = (err uninitialised, t)
  opened handle t (some db) = (
    ok tt,
    record t {
      sessions = insert handle (new_session t.slot_id db (login_state t.user_login)) t.sessions;
    },
  )

  -- Token::open_session
  unfoldable pub open_session : ℕ → Token E → Result TokenError (Unit {0}) × Token E
  unfolding new_session insert
  open_session handle t =
      if leb token_max_sessions (length t.sessions)
      then (err session_count, t)
      else opened handle t t.db

  abbrev closed : ℕ → Token E → Option (Session E) → Result TokenError (Unit {0}) × Token E
  closed handle t none = (err bad_session_handle, t)
  closed handle t (some _) = (ok tt, record t { sessions = remove handle t.sessions })

  -- Token::close_session
  unfoldable pub close_session : ℕ → Token E → Result TokenError (Unit {0}) × Token E
  unfolding get remove
  close_session handle t = closed handle t (get handle t.sessions)

  -- Token::close_all_sessions
  unfoldable pub close_all_sessions : Token E → Token E
  close_all_sessions t = record t { sessions = [] }

  -- Token::session
  abbrev pub session : ℕ → Token E → Option (Session E)
  session handle t = get handle t.sessions

  -- The session of the handle is set first, and then each of the others.
  unfoldable pub set_states : SessionState → ℕ → Token E → Token E
  unfolding set_state update_all
  set_states state handle t =
      let own = update_all (λ h s. if h == handle then set_state state s else s) t.sessions in
      record t { sessions = update_all (λ h s. if h == handle then s else set_state state s) own }

  abbrev logged_in : ℕ → Token E → Session E → Result TokenError (Unit {0}) × Token E
  logged_in handle t s = elim s.state [
    | ro_user ↦ (err already_logged_in, t)
    | ro_public ↦ (ok tt, record (set_states ro_user handle t) { user_login = true })
  ]

  -- The session that may change its login state, once the pin is checked.
  abbrev pub checked : ℕ → Bytes → Token E → Result TokenError (Session E)
  checked handle pin t = do
    token_pin ← pin_of t.db
    guard (bytes_eq token_pin pin) pin_incorrect
    ok_or (session handle t) bad_session_handle

  abbrev pub with_session :
      (Session E → Result TokenError (Unit {0}) × Token E)
      → Token E
      → Result TokenError (Session E)
      → Result TokenError (Unit {0}) × Token E
  with_session act t (err e) = (err e, t)
  with_session act t (ok s) = act s

  -- Token::login
  unfoldable pub login : ℕ → Bytes → Token E → Result TokenError (Unit {0}) × Token E
  unfolding get set_states bytes_eq
  login handle pin t = with_session (logged_in handle t) t (checked handle pin t)

  abbrev logged_out : ℕ → Token E → Session E → Result TokenError (Unit {0}) × Token E
  logged_out handle t s = elim s.state [
    | ro_public ↦ (err not_logged_in, t)
    | ro_user ↦ (ok tt, record (set_states ro_public handle t) { user_login = false })
  ]

  -- Token::logout
  unfoldable pub logout : ℕ → Token E → Result TokenError (Unit {0}) × Token E
  unfolding get set_states
  logout handle t =
      with_session (logged_out handle t) t (ok_or (session handle t) bad_session_handle)

abbrev mechs_of : List (ℕ × Object) → List Mechanism
mechs_of [] = []
mechs_of ((h, o) ∷ objects) = elim o.kind [
  | mechanism mech ↦ mech ∷ mechs_of objects
  | _ ↦ mechs_of objects
]

module _ {E : Evp} where
  -- Token::mech_list
  unfoldable pub mech_list : Token E → Result TokenError (List Mechanism)
  unfolding enumerate
  mech_list t = do db ← ok_or t.db uninitialised; ok (mechs_of (enumerate db))

  -- Token::mech_count
  unfoldable pub mech_count : Token E → Result TokenError ℕ
  unfolding enumerate
  mech_count t = do db ← ok_or t.db uninitialised; ok (length (mechs_of (enumerate db)))

abbrev pub find_mech : ℕ → List Mechanism → Option Mechanism
find_mech mech_type [] = none
find_mech mech_type (mech ∷ mechs) =
    if ck_type mech == mech_type then some mech else find_mech mech_type mechs

module _ {E : Evp} where
  -- Token::mech
  unfoldable pub mech : ℕ → Token E → Result TokenError Mechanism
  unfolding enumerate ck_type
  mech mech_type t = do
    db ← ok_or t.db uninitialised
    ok_or (find_mech mech_type (mechs_of (enumerate db))) mech_not_found
