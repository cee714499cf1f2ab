-- ===== src/P11/Api/Authentic.antt =====
-- What a login through C_Login takes.
use aws_nitro_enclaves_acm.Prelude.{
  ℕ, ◌≤◌, ltb, get_elem?, ◌==◌, ==_iff, ◌≡◌, ◌≢◌, refl, sym, ap, subst, ◌∙◌, some, Bytes, bytes_eq,
  bytes_eq_iff, from_utf8, Result, ok, err, map_err, arith, Bool-cases, Option-cases, Result-cases,
  inl, inr,
}
use aws_nitro_enclaves_acm.Prelude.Assoc.{get}
use aws_nitro_enclaves_acm.P11.Ck.Rv
use aws_nitro_enclaves_acm.P11.Ck.Flags
use aws_nitro_enclaves_acm.P11.Error.{
  Error, TokenError, db_load, mech_not_found, pin_incorrect, session_count, bad_session_handle,
  lock_poisoned, already_logged_in, not_logged_in, uninitialised, token_error, ck_rv,
}
use aws_nitro_enclaves_acm.P11.Db.{Db}
use aws_nitro_enclaves_acm.P11.Crypto.Evp.{Evp}
use aws_nitro_enclaves_acm.P11.Token
use aws_nitro_enclaves_acm.P11.Session.{Session}
use aws_nitro_enclaves_acm.P11.Device.Sessions.{slot-get}
use aws_nitro_enclaves_acm.P11.Device.{
  Device, Slot, slot, slot_token, token, located, on_session, put_result, login,
}
use aws_nitro_enclaves_acm.P11.Api.Entry.{rv_and, c_login}

-- No error of a token is reported as success.
token_error-ck_rv : (e : TokenError) → ck_rv (token_error e) ≢ Rv.ckr_ok
unfolding ck_rv
token_error-ck_rv (db_load e) = λ h. omega arith
token_error-ck_rv mech_not_found = λ h. omega arith
token_error-ck_rv pin_incorrect = λ h. omega arith
token_error-ck_rv session_count = λ h. omega arith
token_error-ck_rv bad_session_handle = λ h. omega arith
token_error-ck_rv lock_poisoned = λ h. omega arith
token_error-ck_rv already_logged_in = λ h. omega arith
token_error-ck_rv not_logged_in = λ h. omega arith
token_error-ck_rv uninitialised = λ h. omega arith

from_utf8-same : (bs p : Bytes) → from_utf8 bs ≡ some p → p ≡ bs
unfolding from_utf8
from_utf8-same bs p h = ground arith

module _ {E : Evp} where
  -- The handle is mapped to a slot whose token is there and has not expired, holds a session of that
  -- handle, and has this PIN.
  abbrev pub HasPin : ℕ → ℕ → Bytes → Device E → Type 0
  HasPin now h pin d =
      (i : ℕ) × (s : Slot E) × (t : Token.Token E) × (se : Session E) × (db : Db) × (get h
          d.session_slot_map
        ≡ some i)
      × (get_elem? d.slots i ≡ some s)
      × (s.token ≡ some t)
      × (now ≤ t.expiry_ts)
      × (get h t.sessions ≡ some se)
      × (t.db ≡ some db)
      × (db.token_pin ≡ pin)

  slot_token-live :
      (now : ℕ) (s : Slot E) (t : Token.Token E)
      → slot_token now s ≡ some t
      → (s.token ≡ some t) × (now ≤ t.expiry_ts)
  unfolding slot_token Token.has_expired
  slot_token-live now s t e = elim (Option-cases s.token) [
    | inl none_ ↦ absurd (ground (arith, e, none_))
    | inr (u, has) ↦ elim (Bool-cases (ltb u.expiry_ts now)) [
      | inl expired ↦ absurd (ground (arith, e, has, expired))
      | inr live ↦
          let same : u ≡ t = ground (arith, e, has, live) in
          subst (λ v. (s.token ≡ some v) × (now ≤ v.expiry_ts)) same (has, ground (arith, live))
    ]
  ]

  -- What `located` finds.
  located-parts :
      (now h i : ℕ) (d : Device E) (t : Token.Token E)
      → located now h d ≡ ok (i, t)
      → (get h d.session_slot_map ≡ some i)
        × (s : Slot E) × (get_elem? d.slots i ≡ some s)
        × (s.token ≡ some t)
        × (now ≤ t.expiry_ts)
  unfolding token
  located-parts now h i d t e = elim (Option-cases (get h d.session_slot_map)) [
    | inl none_ ↦ absurd (ground (arith, e, none_))
    | inr (j, mapped) ↦ elim (Option-cases (slot j d)) [
      | inl none_ ↦ absurd (ground (arith, e, mapped, none_))
      | inr (s, found) ↦ elim (Option-cases (slot_token now s)) [
        | inl none_ ↦ absurd (ground (arith, e, mapped, found, none_))
        | inr (u, has) ↦
            let at : j ≡ i = ground (arith, e, mapped, found, has) in
            let same : u ≡ t = ground (arith, e, mapped, found, has) in
            let (tok, live) =
              subst (λ v. (s.token ≡ some v) × (now ≤ v.expiry_ts)) same
                (slot_token-live now s u has) in
            (
              mapped ∙ ap some at,
              s,
              ap (get_elem? d.slots) (sym at) ∙ sym (slot-get j d) ∙ found,
              tok,
              live,
            )
      ]
    ]
  ]

  token_login-pin :
      (h : ℕ) (pin : Bytes) (t : Token.Token E)
      → (Token.login h pin t).0 ≡ ok tt
      → (se : Session E) × (db : Db) × (get h t.sessions ≡ some se)
        × (t.db ≡ some db)
        × (db.token_pin ≡ pin)
  unfolding Token.login
  token_login-pin h pin t e = elim (Option-cases t.db) [
    | inl none_ ↦ ground arith
    | inr (db, has) ↦ elim (Bool-cases (bytes_eq db.token_pin pin)) [
      | inl same ↦ elim (Option-cases (get h t.sessions)) [
        | inl lost ↦ absurd (ground (arith, e, has, same, lost))
        | inr (se, there) ↦ (se, db, there, has, (bytes_eq_iff _ _).0 same)
      ]
      | inr other ↦ ground arith
    ]
  ]

  located-ck_rv :
      (now h : ℕ) (d : Device E) (e : Error) → located now h d ≡ err e → ck_rv e ≢ Rv.ckr_ok
  unfolding token ck_rv
  located-ck_rv now h d e f = elim (Option-cases (get h d.session_slot_map)) [
    | inl none_ ↦ λ bad. ground arith
    | inr (i, mapped) ↦ elim (Option-cases (slot i d)) [
      | inl none_ ↦ λ bad. ground arith
      | inr (s, found) ↦ elim (Option-cases (slot_token now s)) [
        | inl none_ ↦ λ bad. ground arith
        | inr (t, has) ↦ ground arith
      ]
    ]
  ]

  rv_of_put :
      (i : ℕ) (d : Device E) (r : Result TokenError (Unit {0}) × Token.Token E)
      → (rv_and (map_err token_error r.0, d)).0 ≡ (rv_and (put_result i d r)).0
  rv_of_put i d (ok u, t) = refl
  rv_of_put i d (err e, t) = refl

  login-HasPin :
      (now h : ℕ) (pin : Bytes) (d : Device E)
      → (rv_and (login now h pin d)).0 ≡ Rv.ckr_ok
      → HasPin now h pin d
  unfolding login
  login-HasPin now h pin d e = elim (Result-cases (located now h d)) [
    | inr (x, failed) ↦
        let is = ap (λ r. (rv_and (on_session (Token.login h pin) d r)).0) failed in
        absurd (located-ck_rv now h d x failed (sym is ∙ e))
    | inl ((i, t), found) ↦
        let is = ap (λ r. (rv_and (on_session (Token.login h pin) d r)).0) found in
        elim (Result-cases (Token.login h pin t).0) [
          | inr (x, failed) ↦
              let fails = ap (λ r. (rv_and (map_err token_error r, d)).0) failed in
              absurd
                (token_error-ck_rv x (sym fails ∙ rv_of_put i d (Token.login h pin t) ∙ sym is ∙ e))
          | inl (u, good) ↦
              let (se, db, there, has, same) = token_login-pin h pin t good in
              let (mapped, s, at, tok, live) = located-parts now h i d t found in
              (i, s, t, se, db, mapped, at, tok, live, there, has, same)
        ]
  ]

  -- `C_Login` succeeds only for the user type CKU_USER, with a PIN that is UTF-8, and on a handle that
  -- is mapped to a slot whose token is present, is not expired, holds a session of that handle, and
  -- has this PIN.
  pub c_login-HasPin :
      (now h user_type : ℕ) (pin : Bytes) (d : Device E)
      → (c_login now h user_type (some pin) (some d)).0 ≡ Rv.ckr_ok
      → (user_type ≡ Flags.cku_user) × (from_utf8 pin ≡ some pin) × HasPin now h pin d
  unfolding c_login
  c_login-HasPin now h user_type pin d e = elim (Bool-cases (user_type == Flags.cku_so)) [
    | inl so ↦ ground arith
    | inr not_so ↦ elim (Bool-cases (user_type == Flags.cku_context_specific)) [
      | inl specific ↦ ground arith
      | inr not_specific ↦ elim (Bool-cases (user_type == Flags.cku_user)) [
        | inr neither ↦ ground arith
        | inl user ↦ elim (Option-cases (from_utf8 pin)) [
          | inl invalid ↦ ground arith
          | inr (p, valid) ↦
              let same = from_utf8-same pin p valid in
              let valid' = valid ∙ ap some same in
              ((==_iff _ _).0 user, valid', login-HasPin now h pin d (ground arith))
        ]
      ]
    ]
  ]
