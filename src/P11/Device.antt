-- ===== src/P11/Device.antt =====
-- vtok_p11/src/backend/device.rs. The clock, the config file's modification time and what loading
-- the file gives are arguments, none where the call fails.
pub mod Sessions
pub mod Invariant
pub mod Reload
pub mod Given
pub mod Reach
pub mod Handles
pub mod Reloaded
use aws_nitro_enclaves_acm.Prelude.{
  ℕ, zero, suc, ◌+◌, ◌%◌, ◌==◌, Bool, true, false, not, ◌&&◌, ◌||◌, leb, Option, none, some, List,
  [], ◌∷◌, length, get_elem?, set, Bytes, is_some, if◌then◌else◌, Result, ok, err, ok_or, map_err,
  ◌>>=◌,
}
use aws_nitro_enclaves_acm.Prelude.Assoc.{Assoc, get, insert, remove, retain}
use aws_nitro_enclaves_acm.Common.Defs.{u64_mod}
use aws_nitro_enclaves_acm.Common.Config
use aws_nitro_enclaves_acm.P11.Ck.Rv
use aws_nitro_enclaves_acm.P11.Error.{
  Error, TokenError, ck_error, session_handle_invalid, slot_id_invalid, token_error,
  token_not_present, general_error,
}
use aws_nitro_enclaves_acm.P11.Crypto.Evp.{Evp}
use aws_nitro_enclaves_acm.P11.Session.{Session}
use aws_nitro_enclaves_acm.P11.Token

pub record Slot (E : Evp) : Type 0 where
  pub id : ℕ
  pub token : Option (Token.Token E)

pub record Device (E : Evp) : Type 0 where
  pub slots : List (Slot E)
  pub session_slot_map : Assoc ℕ
  pub next_session_handle : ℕ
  pub config_update_time : ℕ

-- One call's view of the world: the clock as slot i is reloaded, the clock as the call goes on, and
-- the config file.
pub record World : Type 0 where
  pub reload_clock : ℕ → ℕ
  pub now : ℕ
  pub modification_time : Option ℕ
  pub config : Option Config.Slots

module _ {E : Evp} where
  abbrev unexpired : ℕ → Option (Token.Token E) → Option (Token.Token E)
  unexpired now none = none
  unexpired now (some t) = if Token.has_expired now t then none else some t

  -- Slot::token and Slot::token_mut
  unfoldable pub slot_token : ℕ → Slot E → Option (Token.Token E)
  unfolding Token.has_expired
  slot_token now s = unexpired now s.token

  -- Slot::has_token
  unfoldable pub has_token : ℕ → Slot E → Bool
  unfolding slot_token
  has_token now s = is_some (slot_token now s)

  -- Device::slot and Device::slot_mut
  unfoldable pub slot : ℕ → Device E → Option (Slot E)
  slot slot_id d = if leb (length d.slots) slot_id then none else get_elem? d.slots slot_id

  -- Device::token and Device::token_mut
  unfoldable pub token : ℕ → ℕ → Device E → Result Error (Token.Token E)
  unfolding slot slot_token
  token now slot_id d = do
    s ← ok_or (slot slot_id d) slot_id_invalid
    ok_or (slot_token now s) token_not_present

  -- Device::token_unchecked_mut
  unfoldable pub token_unchecked : ℕ → Device E → Result Error (Token.Token E)
  unfolding slot
  token_unchecked slot_id d = do
    s ← ok_or (slot slot_id d) slot_id_invalid
    ok_or s.token token_not_present

  -- The device once the token of a slot was changed in place.
  abbrev with_token : ℕ → Option (Slot E) → Token.Token E → Device E → Device E
  with_token slot_id none t d = d
  with_token slot_id (some s) t d = record d {
    slots = set d.slots slot_id (record s { token = some t });
  }

  abbrev pub put_token : ℕ → Token.Token E → Device E → Device E
  put_token slot_id t d = with_token slot_id (get_elem? d.slots slot_id) t d

  -- The token that `open_session` takes, with errors of its own.
  abbrev pub open_token : ℕ → ℕ → Device E → Result Error (Token.Token E)
  open_token now slot_id d = do
    s ← ok_or (slot slot_id d) (ck_error Rv.ckr_slot_id_invalid)
    ok_or (slot_token now s) (ck_error Rv.ckr_token_not_present)

  abbrev pub opened :
      ℕ → Device E → Result TokenError (Unit {0}) × Token.Token E → Result Error ℕ × Device E
  opened slot_id d (err e, t) = (err (token_error e), put_token slot_id t d)
  opened slot_id d (ok _, t) = (
    ok d.next_session_handle,
    record (put_token slot_id t d) {
      session_slot_map = insert d.next_session_handle slot_id d.session_slot_map;
      next_session_handle = (d.next_session_handle + 1) % u64_mod;
    },
  )

  abbrev pub try_open : ℕ → Device E → Result Error (Token.Token E) → Result Error ℕ × Device E
  try_open slot_id d (err e) = (err e, d)
  try_open slot_id d (ok t) = opened slot_id d (Token.open_session d.next_session_handle t)

  -- Device::open_session
  unfoldable pub open_session : ℕ → ℕ → Device E → Result Error ℕ × Device E
  unfolding slot slot_token Token.open_session insert
  open_session now slot_id d = try_open slot_id d (open_token now slot_id d)

  -- The slot of a session, and its token.
  abbrev pub located : ℕ → ℕ → Device E → Result Error (ℕ × Token.Token E)
  located now handle d = do
    slot_id ← ok_or (get handle d.session_slot_map) session_handle_invalid
    t ← token now slot_id d
    ok (slot_id, t)

  abbrev pub closed :
      ℕ
      → ℕ
      → Device E
      → Result TokenError (Unit {0}) × Token.Token E
      → Result Error (Unit {0}) × Device E
  closed handle slot_id d (err e, t) = (err (token_error e), put_token slot_id t d)
  closed handle slot_id d (ok _, t) = (
    ok tt,
    record (put_token slot_id t d) { session_slot_map = remove handle d.session_slot_map },
  )

  abbrev pub try_close :
      ℕ → Device E → Result Error (ℕ × Token.Token E) → Result Error (Unit {0}) × Device E
  try_close handle d (err e) = (err e, d)
  try_close handle d (ok (slot_id, t)) = closed handle slot_id d (Token.close_session handle t)

  -- Device::close_session
  unfoldable pub close_session : ℕ → ℕ → Device E → Result Error (Unit {0}) × Device E
  unfolding get remove token Token.close_session
  close_session now handle d = try_close handle d (located now handle d)

  abbrev pub try_close_all :
      ℕ → Device E → Result Error (Token.Token E) → Result Error (Unit {0}) × Device E
  try_close_all slot_id d (err e) = (err e, d)
  try_close_all slot_id d (ok t) = (
    ok tt,
    record (put_token slot_id (Token.close_all_sessions t) d) {
      session_slot_map = retain (λ sid. not (sid == slot_id)) d.session_slot_map;
    },
  )

  -- Device::close_all_slot_sessions
  unfoldable pub close_all_slot_sessions : ℕ → ℕ → Device E → Result Error (Unit {0}) × Device E
  unfolding token Token.close_all_sessions retain
  close_all_slot_sessions now slot_id d = try_close_all slot_id d (token now slot_id d)

  abbrev pub session_in : ℕ → Result Error (ℕ × Token.Token E) → Option (Session E)
  session_in handle (err e) = none
  session_in handle (ok (slot_id, t)) = Token.session handle t

  -- Device::session
  unfoldable pub session : ℕ → ℕ → Device E → Option (Session E)
  unfolding get token
  session now handle d = session_in handle (located now handle d)

  -- Slot::new
  abbrev pub new_slot : ℕ → Slot E
  new_slot id = record { id = id; token = none }

  abbrev pub refreshed : ℕ → ℕ → Device E → Result Error (Token.Token E) → Device E
  refreshed slot_id expiry_ts d (err e) = d
  refreshed slot_id expiry_ts d (ok t) = put_token slot_id (Token.refresh expiry_ts t) d

  -- One turn of the loop of `do_reload_slots`. The token that the third arm loads is dropped.
  abbrev pub reload_slot : (ℕ → ℕ) → ℕ → Option Config.Token → Option (Slot E) → Device E → Device E
  reload_slot clock slot_id none (some _) d =
      let closed_ = (close_all_slot_sessions (clock slot_id) slot_id d).1 in
      record closed_ { slots = set closed_.slots slot_id (new_slot slot_id) }
  reload_slot clock slot_id (some new_token_config) none d = d
  reload_slot clock slot_id (some new_token_config) (some _) d =
      refreshed slot_id new_token_config.expiry_ts d (token_unchecked slot_id d)
  reload_slot clock slot_id none none d = d

  unfoldable pub reload_from : (ℕ → ℕ) → ℕ → Config.Slots → Device E → Device E
  unfolding slot close_all_slot_sessions token_unchecked Token.refresh
  reload_from clock slot_id [] d = d
  reload_from clock slot_id (c ∷ cs) d =
      reload_from clock (suc slot_id) cs (reload_slot clock slot_id c (slot slot_id d) d)

  abbrev pub do_reload : (ℕ → ℕ) → Option Config.Slots → Device E → Bool × Device E
  do_reload clock none d = (false, d)
  do_reload clock (some slots) d = (true, reload_from clock 0 slots d)

  -- Device::do_reload_slots
  unfoldable pub do_reload_slots : World → Device E → Bool × Device E
  unfolding reload_from
  do_reload_slots w d = do_reload w.reload_clock w.config d

  abbrev pub stamped : ℕ → Bool × Device E → Device E
  stamped mtime (true, d) = record d { config_update_time = mtime }
  stamped mtime (false, d) = d

  abbrev pub reload_since : World → Option ℕ → Device E → Device E
  reload_since w none d = d
  reload_since w (some mtime) d =
      if mtime == d.config_update_time then d else stamped mtime (do_reload_slots w d)

  -- Device::reload_slots
  unfoldable pub reload_slots : World → Device E → Device E
  unfolding do_reload_slots
  reload_slots w d = reload_since w w.modification_time d

  abbrev pub session_of : ℕ → Result Error (Token.Token E) → Option (Session E)
  session_of handle (err e) = none
  session_of handle (ok t) = Token.session handle t

  abbrev pub session_after : World → ℕ → Option ℕ → Device E → Option (Session E) × Device E
  session_after w handle none d = (none, d)
  session_after w handle (some slot_id) d =
      let d' = reload_slots w d in (session_of handle (token w.now slot_id d'), d')

  -- Device::session_mut
  unfoldable pub session_mut : World → ℕ → Device E → Option (Session E) × Device E
  unfolding get reload_slots token
  session_mut w handle d = session_after w handle (get handle d.session_slot_map) d

  abbrev pub put_result :
      ℕ
      → Device E
      → Result TokenError (Unit {0}) × Token.Token E
      → Result Error (Unit {0}) × Device E
  put_result slot_id d (r, t) = (map_err token_error r, put_token slot_id t d)

  -- An operation on the token of a session.
  abbrev pub on_session :
      (Token.Token E → Result TokenError (Unit {0}) × Token.Token E)
      → Device E
      → Result Error (ℕ × Token.Token E)
      → Result Error (Unit {0}) × Device E
  on_session act d (err e) = (err e, d)
  on_session act d (ok (slot_id, t)) = put_result slot_id d (act t)

  -- Device::login
  unfoldable pub login : ℕ → ℕ → Bytes → Device E → Result Error (Unit {0}) × Device E
  unfolding get token Token.login
  login now handle pin d = on_session (Token.login handle pin) d (located now handle d)

  -- Device::logout
  unfoldable pub logout : ℕ → ℕ → Device E → Result Error (Unit {0}) × Device E
  unfolding get token Token.logout
  logout now handle d = on_session (Token.logout handle) d (located now handle d)

  -- Device::ck_slot_ids
  unfoldable pub slot_ids_from : ℕ → ℕ → Bool → List (Slot E) → List ℕ
  unfolding has_token
  slot_ids_from now i must_have_token [] = []
  slot_ids_from now i must_have_token (s ∷ ss) =
      let rest = slot_ids_from now (suc i) must_have_token ss in
      if must_have_token && not (has_token now s) then rest else i ∷ rest

  unfoldable pub ck_slot_ids : ℕ → Bool → Device E → List ℕ
  unfolding slot_ids_from
  ck_slot_ids now must_have_token d = slot_ids_from now 0 must_have_token d.slots

  -- Device::slot_count
  unfoldable pub count_slots : ℕ → Bool → List (Slot E) → ℕ
  unfolding has_token
  count_slots now must_have_token [] = 0
  count_slots now must_have_token (s ∷ ss) =
      let rest = count_slots now must_have_token ss in
      if not must_have_token || has_token now s then suc rest else rest

  unfoldable pub slot_count : ℕ → Bool → Device E → ℕ
  unfolding count_slots
  slot_count now must_have_token d = count_slots now must_have_token d.slots

  abbrev pub load_slot : Token.DbLoader → ℕ → Option Config.Token → Result TokenError (Slot E)
  load_slot load_db slot_id none = ok (new_slot slot_id)
  load_slot load_db slot_id (some c) = do
    t ← Token.from_config load_db slot_id c
    ok (record { id = slot_id; token = some t })

  unfoldable pub load_slots : Token.DbLoader → ℕ → Config.Slots → Result Error (List (Slot E))
  unfolding Token.from_config
  load_slots load_db slot_id [] = ok []
  load_slots load_db slot_id (c ∷ cs) = do
    s ← map_err token_error (load_slot load_db slot_id c)
    ss ← load_slots load_db (suc slot_id) cs
    ok (s ∷ ss)

  -- Device::new
  unfoldable pub new_device : Token.DbLoader → World → Result Error (Device E)
  unfolding load_slots
  new_device load_db w = do
    config ← ok_or w.config general_error
    mtime ← ok_or w.modification_time general_error
    slots ← load_slots load_db 0 config
    ok (record {
      slots = slots;
      session_slot_map = [];
      next_session_handle = 1;
      config_update_time = mtime;
    })
