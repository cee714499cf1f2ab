-- ===== src/P11/Token/Login.antt =====
-- The states of a token's sessions follow the token's login.
use aws_nitro_enclaves_acm.Prelude.{
  ℕ, ◌≤◌, ◌==◌, Bool, true, false, leb, ◌≡◌, ◌⊎◌, refl, sym, subst, [], ◌∷◌, length, All, Bytes, ok,
  arith, Bool-cases, Option-cases, Result-cases, inl, inr, if◌then◌else◌,
}
use aws_nitro_enclaves_acm.Prelude.Assoc.{
  Assoc, get, insert, remove, update_all, All-remove, length-remove-le, length-update_all,
}
use aws_nitro_enclaves_acm.Common.Defs.{token_max_sessions}
use aws_nitro_enclaves_acm.Common.Config
use aws_nitro_enclaves_acm.P11.Db.{Db}
use aws_nitro_enclaves_acm.P11.Crypto.Evp.{Evp}
use aws_nitro_enclaves_acm.P11.Session.{
  Session, SessionState, ro_public, ro_user, new_session, set_state,
}
use aws_nitro_enclaves_acm.P11.Token.{
  Token, DbLoader, from_config, refresh, login_state, open_session, close_session,
  close_all_sessions, set_states, login, logout, checked,
}

pub state-cases : (s : SessionState) → (s ≡ ro_user) ⊎ (s ≡ ro_public)
state-cases ro_user = inl refl
state-cases ro_public = inr refl

module _ {E : Evp} where
  -- Every session is in the state of the token's login, and there are not too many of them.
  abbrev pub IsSynced : SessionState → Assoc (Session E) → Type 0
  IsSynced state sessions = All (λ hs. hs.1.state ≡ state) sessions

  abbrev pub WellFormed : Token E → Type 0
  WellFormed t =
      IsSynced (login_state t.user_login) t.sessions × (length t.sessions ≤ token_max_sessions)

  -- The operations on a token and its sessions, failed ones included. An operation on a session
  -- itself leaves its login state alone.
  pub data Step : Token E → Token E → Type 0 where
    by_open : {t : Token E} (h : ℕ) → Step t (open_session h t).1
    by_close : {t : Token E} (h : ℕ) → Step t (close_session h t).1
    by_close_all : {t : Token E} → Step t (close_all_sessions t)
    by_login : {t : Token E} (h : ℕ) (pin : Bytes) → Step t (login h pin t).1
    by_logout : {t : Token E} (h : ℕ) → Step t (logout h t).1
    by_refresh : {t : Token E} (ts : ℕ) → Step t (refresh ts t)
    by_session :
        {t : Token E} (h : ℕ) (f : Session E → Session E)
        → ((s : Session E) → (f s).state ≡ s.state)
        → Step t (record t { sessions = update_all (λ j s. if j == h then f s else s) t.sessions })

  pub data Reachable : Token E → Type 0 where
    loaded :
        {t : Token E} (load_db : DbLoader) (i : ℕ) (c : Config.Token)
        → from_config load_db i c ≡ ok t
        → Reachable t
    stepped : {t t' : Token E} → Reachable t → Step t t' → Reachable t'

  set_twice :
      (state : SessionState) (h : ℕ) (m : Assoc (Session E))
      → IsSynced state (
          update_all
            (λ j s. if j == h then s else set_state state s)
            (update_all (λ j s. if j == h then set_state state s else s) m))
  unfolding update_all set_state
  set_twice state h [] = tt
  set_twice state h ((j, s) ∷ m) = elim (Bool-cases (j == h)) [
    | inl own ↦ (ground arith, set_twice state h m)
    | inr other ↦ (ground arith, set_twice state h m)
  ]

  set_states-WellFormed :
      (b : Bool) (h : ℕ) (t : Token E)
      → WellFormed t
      → WellFormed (record (set_states (login_state b) h t) { user_login = b })
  unfolding set_states
  set_states-WellFormed b h t w = (
    set_twice (login_state b) h t.sessions,
    ground (
      arith,
      w.1,
      length-update_all (λ j s. if j == h then set_state (login_state b) s else s) t.sessions,
      length-update_all (λ j s. if j == h then s else set_state (login_state b) s)
          (update_all (λ j s. if j == h then set_state (login_state b) s else s) t.sessions),
    ),
  )

  update-IsSynced :
      (state : SessionState) (h : ℕ) (f : Session E → Session E) (m : Assoc (Session E))
      → ((s : Session E) → (f s).state ≡ s.state)
      → IsSynced state m
      → IsSynced state (update_all (λ j s. if j == h then f s else s) m)
  unfolding update_all
  update-IsSynced state h f [] k w = tt
  update-IsSynced state h f ((j, s) ∷ m) k w = elim (Bool-cases (j == h)) [
    | inl own ↦ (ground (arith, k s, w.0), update-IsSynced state h f m k w.1)
    | inr other ↦ (ground (arith, w.0), update-IsSynced state h f m k w.1)
  ]

  kept : (t' t : Token E) → t' ≡ t → WellFormed t → WellFormed t'
  kept t' t same w = subst WellFormed (sym same) w

  abbrev with_new : ℕ → Db → Token E → Token E
  with_new h db t = record t {
    sessions = insert h (new_session t.slot_id db (login_state t.user_login)) t.sessions;
  }

  open-WellFormed : (h : ℕ) (t : Token E) → WellFormed t → WellFormed (open_session h t).1
  unfolding open_session insert new_session
  open-WellFormed h t w = elim (Bool-cases (leb token_max_sessions (length t.sessions))) [
    | inl full ↦ kept (open_session h t).1 t (ground arith) w
    | inr free ↦ elim (Option-cases t.db) [
      | inl none_ ↦ kept (open_session h t).1 t (ground arith) w
      | inr (db, found) ↦
          kept (open_session h t).1 (with_new h db t) (ground arith)
            ((refl, All-remove _ h t.sessions w.0), ground (arith, length-remove-le h t.sessions))
    ]
  ]

  close-WellFormed : (h : ℕ) (t : Token E) → WellFormed t → WellFormed (close_session h t).1
  unfolding close_session
  close-WellFormed h t w = elim (Option-cases (get h t.sessions)) [
    | inl none_ ↦ kept (close_session h t).1 t (ground arith) w
    | inr (s, found) ↦
        kept (close_session h t).1 (record t { sessions = remove h t.sessions }) (ground arith)
          (All-remove _ h t.sessions w.0, ground (arith, w.1, length-remove-le h t.sessions))
  ]

  login-WellFormed :
      (h : ℕ) (pin : Bytes) (t : Token E) → WellFormed t → WellFormed (login h pin t).1
  unfolding login
  login-WellFormed h pin t w = elim (Result-cases (checked h pin t)) [
    | inr (e, failed) ↦ kept (login h pin t).1 t (ground arith) w
    | inl (s, good) ↦ elim (state-cases s.state) [
      | inl user ↦ kept (login h pin t).1 t (ground arith) w
      | inr public ↦
          kept (login h pin t).1 (record (set_states ro_user h t) { user_login = true })
            (ground arith) (set_states-WellFormed true h t w)
    ]
  ]

  logout-WellFormed : (h : ℕ) (t : Token E) → WellFormed t → WellFormed (logout h t).1
  unfolding logout
  logout-WellFormed h t w = elim (Option-cases (get h t.sessions)) [
    | inl none_ ↦ kept (logout h t).1 t (ground arith) w
    | inr (s, good) ↦ elim (state-cases s.state) [
      | inr public ↦ kept (logout h t).1 t (ground arith) w
      | inl user ↦
          kept (logout h t).1 (record (set_states ro_public h t) { user_login = false })
            (ground arith) (set_states-WellFormed false h t w)
    ]
  ]

  refresh-WellFormed : (ts : ℕ) (t : Token E) → WellFormed t → WellFormed (refresh ts t)
  unfolding refresh
  refresh-WellFormed ts t w = ground (arith, w)

  Step-WellFormed : (t t' : Token E) → Step t t' → WellFormed t → WellFormed t'
  unfolding close_all_sessions
  Step-WellFormed t _ (by_open h) w = open-WellFormed h t w
  Step-WellFormed t _ (by_close h) w = close-WellFormed h t w
  Step-WellFormed t _ by_close_all w = (tt, omega arith)
  Step-WellFormed t _ (by_login h pin) w = login-WellFormed h pin t w
  Step-WellFormed t _ (by_logout h) w = logout-WellFormed h t w
  Step-WellFormed t _ (by_refresh ts) w = refresh-WellFormed ts t w
  Step-WellFormed t _ (by_session h f k) w = (
    update-IsSynced (login_state t.user_login) h f t.sessions k w.0,
    ground (arith, w.1, length-update_all (λ j s. if j == h then f s else s) t.sessions),
  )

  loaded-WellFormed :
      (load_db : DbLoader) (i : ℕ) (c : Config.Token) (t : Token E)
      → from_config load_db i c ≡ ok t
      → WellFormed t
  unfolding from_config
  loaded-WellFormed load_db i c t h = elim (Result-cases (load_db c)) [
    | inr (e, failed) ↦ ground arith
    | inl (db, good) ↦
        let empty : t.sessions ≡ [] = ground arith in
        subst (λ m. IsSynced (login_state t.user_login) m × (length m ≤ token_max_sessions))
          (sym empty) (tt, omega arith)
  ]

  -- Whatever operations were tried on a token since it was loaded, all its sessions are logged in
  -- if the token is, none of them is if it is not, and there are at most 1024 of them.
  pub reachable-WellFormed : (t : Token E) → Reachable t → WellFormed t
  reachable-WellFormed t (loaded load_db i c h) = loaded-WellFormed load_db i c t h
  reachable-WellFormed t (stepped r s) = Step-WellFormed _ t s (reachable-WellFormed _ r)
