-- ===== src/P11/Token/Within.antt =====
-- The operations on a token that open no session: its sessions stay among those it had.
use aws_nitro_enclaves_acm.Prelude.{
  ℕ, Bool, true, false, leb, length, ◌⊎◌, ◌≡◌, sym, subst, ap, ◌∙◌, some, Bytes, ok, err, arith,
  Bool-cases, Option-cases, Result-cases, inl, inr,
}
use aws_nitro_enclaves_acm.Common.Defs.{token_max_sessions}
use aws_nitro_enclaves_acm.P11.Db.{Db}
use aws_nitro_enclaves_acm.P11.Error.{TokenError, session_count, uninitialised, bad_session_handle}
use aws_nitro_enclaves_acm.Prelude.Assoc.{insert, remove, get, update_all, get-update_all_inv}
use aws_nitro_enclaves_acm.P11.Crypto.Evp.{Evp}
use aws_nitro_enclaves_acm.P11.Session.{Session, SessionState, ro_public, ro_user, new_session}
use aws_nitro_enclaves_acm.P11.Token
use aws_nitro_enclaves_acm.P11.Token.Login.{state-cases}

module _ {E : Evp} where
  -- A token whose sessions are among those of the one it replaces.
  abbrev pub Within : Token.Token E → Token.Token E → Type 0
  Within t' t =
      (h : ℕ) (se : Session E)
      → get h t'.sessions ≡ some se
      → (se' : Session E) × (get h t.sessions ≡ some se')

  pub update-Within :
      (t : Token.Token E) (f : ℕ → Session E → Session E)
      → Within (record t { sessions = update_all f t.sessions }) t
  update-Within t f h se has = get-update_all_inv f h t.sessions se has

  set_states-Within :
      (state : SessionState) (b : Bool) (h : ℕ) (t : Token.Token E)
      → Within (record (Token.set_states state h t) { user_login = b }) t
  unfolding Token.set_states
  set_states-Within state b h t k se has =
      let (se₁, had) = get-update_all_inv _ k _ se has in get-update_all_inv _ k t.sessions se₁ had

  same-Within : (t' t : Token.Token E) → t'.sessions ≡ t.sessions → Within t' t
  same-Within t' t same h se has = (se, ap (get h) (sym same) ∙ has)

  pub login-Within : (h : ℕ) (pin : Bytes) (t : Token.Token E) → Within (Token.login h pin t).1 t
  unfolding Token.login
  login-Within h pin t = elim (Result-cases (Token.checked h pin t)) [
    | inr (e, failed) ↦ same-Within (Token.login h pin t).1 t (ground arith)
    | inl (s, good) ↦ elim (state-cases s.state) [
      | inl user ↦ same-Within (Token.login h pin t).1 t (ground arith)
      | inr public ↦
          let is : (Token.login h pin t).1
              ≡ record (Token.set_states ro_user h t) { user_login = true } =
            ground arith in
          subst (λ u. Within u t) (sym is) (set_states-Within ro_user true h t)
    ]
  ]

  pub logout-Within : (h : ℕ) (t : Token.Token E) → Within (Token.logout h t).1 t
  unfolding Token.logout
  logout-Within h t = elim (Option-cases (get h t.sessions)) [
    | inl none_ ↦ same-Within (Token.logout h t).1 t (ground arith)
    | inr (s, good) ↦ elim (state-cases s.state) [
      | inr public ↦ same-Within (Token.logout h t).1 t (ground arith)
      | inl user ↦
          let is : (Token.logout h t).1
              ≡ record (Token.set_states ro_public h t) { user_login = false } =
            ground arith in
          subst (λ u. Within u t) (sym is) (set_states-Within ro_public false h t)
    ]
  ]

  pub refresh-Within : (ts : ℕ) (t : Token.Token E) → Within (Token.refresh ts t) t
  unfolding Token.refresh
  refresh-Within ts t = same-Within (Token.refresh ts t) t (ground arith)

  -- The token with a session opened.
  abbrev pub new_in : ℕ → Token.Token E → Db → Token.Token E
  new_in h t db = record t {
    sessions = insert h (new_session t.slot_id db (Token.login_state t.user_login)) t.sessions;
  }

  pub open_session-cases :
      (h : ℕ) (t : Token.Token E)
      → ((e : TokenError) × (Token.open_session h t ≡ (err e, t)))
        ⊎ ((db : Db) × (t.db ≡ some db) × (Token.open_session h t ≡ (ok tt, new_in h t db)))
  unfolding Token.open_session
  open_session-cases h t = elim (Bool-cases (leb token_max_sessions (length t.sessions))) [
    | inl full ↦ inl (session_count, ground arith)
    | inr free ↦ elim (Option-cases t.db) [
      | inl none_ ↦ inl (uninitialised, ground arith)
      | inr (db, found) ↦ inr (db, found, ground arith)
    ]
  ]

  pub close_session-cases :
      (h : ℕ) (t : Token.Token E)
      → (Token.close_session h t ≡ (err bad_session_handle, t))
        ⊎ (Token.close_session h t ≡ (ok tt, record t { sessions = remove h t.sessions }))
  unfolding Token.close_session
  close_session-cases h t = elim (Option-cases (get h t.sessions)) [
    | inl none_ ↦ inl (ground arith)
    | inr (s, found) ↦ inr (ground arith)
  ]
