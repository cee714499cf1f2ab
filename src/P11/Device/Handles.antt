-- ===== src/P11/Device/Handles.antt =====
-- What a handle is good for after it was given, and after it was closed.
use aws_nitro_enclaves_acm.Prelude.{
  ℕ, ◌<◌, ◌≡◌, refl, sym, subst, ◌∙◌, none, some, get_elem?, get_elem?-set_self, get_elem?-length,
  ok, arith, Option-cases, Result-cases, inl, inr,
}
use aws_nitro_enclaves_acm.Prelude.Assoc.{get, insert, remove, get-insert, get-remove, All-get}
use aws_nitro_enclaves_acm.P11.Crypto.Evp.{Evp}
use aws_nitro_enclaves_acm.P11.Db.{Db}
use aws_nitro_enclaves_acm.P11.Session.{new_session}
use aws_nitro_enclaves_acm.P11.Token
use aws_nitro_enclaves_acm.P11.Token.Within.{new_in, open_session-cases, close_session-cases}
use aws_nitro_enclaves_acm.P11.Device.{
  Slot, Device, slot, slot_token, token, put_token, open_token, open_session, close_session,
  located, session,
}
use aws_nitro_enclaves_acm.P11.Device.Sessions.{WellPlaced, slot-get}
use aws_nitro_enclaves_acm.P11.Device.Invariant.{with_session}

module _ {E : Evp} where
  open_token-token :
      (now i : ℕ) (d : Device E) (t : Token.Token E)
      → open_token now i d ≡ ok t
      → token now i d ≡ ok t
  unfolding token
  open_token-token now i d t e = elim (Option-cases (slot i d)) [
    | inl none_ ↦ ground arith
    | inr (s, found) ↦ ground arith
  ]

  -- The token of a slot depends on the slots only.
  token-slots : (now i : ℕ) (d d' : Device E) → d.slots ≡ d'.slots → token now i d ≡ token now i d'
  unfolding token slot
  token-slots now i d d' same = ground (arith, same)

  still_live :
      (now : ℕ) (s : Slot E) (t t' : Token.Token E)
      → slot_token now s ≡ some t
      → t'.expiry_ts ≡ t.expiry_ts
      → slot_token now (record s { token = some t' }) ≡ some t'
  unfolding slot_token Token.has_expired
  still_live now s t t' live same = elim (Option-cases s.token) [
    | inl none_ ↦ ground arith
    | inr (u, tok) ↦ ground arith
  ]

  -- A token that is put back with the same expiry time can be had again at the same time.
  token-put :
      (now i : ℕ) (d : Device E) (t t' : Token.Token E)
      → token now i d ≡ ok t
      → t'.expiry_ts ≡ t.expiry_ts
      → token now i (put_token i t' d) ≡ ok t'
  unfolding token slot_token Token.has_expired
  token-put now i d t t' e same = elim (Option-cases (slot i d)) [
    | inl none_ ↦ ground arith
    | inr (s, found) ↦
        let live : slot_token now s ≡ some t = ground arith in
        let at : get_elem? d.slots i ≡ some s = sym (slot-get i d) ∙ found in
        let is : slot i (put_token i t' d) ≡ some (record s { token = some t' }) =
          slot-get i (put_token i t' d)
          ∙ ground (
            arith,
            at,
            get_elem?-set_self d.slots i (record s { token = some t' })
                (get_elem?-length d.slots i s at),
          ) in
        let live' : slot_token now (record s { token = some t' }) ≡ some t' =
          still_live now s t t' live same in
        ground (arith, is, live')
  ]

  new_handle : (d : Device E) → WellPlaced d → get d.next_session_handle d.session_slot_map ≡ none
  new_handle d w = elim (Option-cases (get d.next_session_handle d.session_slot_map)) [
    | inl none_ ↦ none_
    | inr (j, mapped) ↦
        let small =
          All-get (λ hv. hv.0 < d.next_session_handle) d.next_session_handle d.session_slot_map j
            w.1 mapped in
        absurd (omega (arith, small))
  ]

  session-with_session :
      (now i : ℕ) (d : Device E) (t : Token.Token E) (db : Db)
      → token now i d ≡ ok t
      → session now d.next_session_handle (with_session i t db d)
        ≡ some (new_session t.slot_id db (Token.login_state t.user_login))
  unfolding session insert
  session-with_session now i d t db tok =
      let next = d.next_session_handle in
      let put = token-put now i d t (new_in next t db) tok refl in
      let same =
        token-slots now i (with_session i t db d) (put_token i (new_in next t db) d) refl in
      let mapped = get-insert next next i d.session_slot_map in
      let own =
        get-insert next next (new_session {E = E} t.slot_id db (Token.login_state t.user_login))
          t.sessions in
      ground (arith, put, same, mapped, own)

  -- A handle that `open_session` gives is new, and while the clock stands it stands for a new session of the slot's
  -- token, logged in if the token is.
  pub session-open :
      (now i h : ℕ) (d d' : Device E)
      → WellPlaced d
      → open_session now i d ≡ (ok h, d')
      → (get h d.session_slot_map ≡ none)
        × (t : Token.Token E) × (db : Db) × (token now i d ≡ ok t)
        × (t.db ≡ some db)
        × (session now h d' ≡ some (new_session t.slot_id db (Token.login_state t.user_login)))
  unfolding open_session session
  session-open now i h d d' w e = elim (Result-cases (open_token now i d)) [
    | inr (x, failed) ↦ ground arith
    | inl (t, found) ↦ elim (open_session-cases d.next_session_handle t) [
      | inl (x, refused) ↦ ground arith
      | inr (db, has, opened) ↦
          let next = d.next_session_handle in
          let t' = new_in next t db in
          let fresh = new_handle d w in
          let h_eq : next ≡ h = ground arith in
          let d_eq : with_session i t db d ≡ d' = ground arith in
          let tok = open_token-token now i d t found in
          let now_has = session-with_session now i d t db tok in
          (
            subst (λ k. get k d.session_slot_map ≡ none) h_eq fresh,
            t,
            db,
            tok,
            has,
            subst
                (λ x.
                  session now h x
                  ≡ some (new_session t.slot_id db (Token.login_state t.user_login)))
                d_eq
                (subst
                  (λ k.
                    session now k (with_session i t db d)
                    ≡ some (new_session t.slot_id db (Token.login_state t.user_login)))
                  h_eq now_has),
          )
    ]
  ]

  -- Once a session was closed, its handle stands for no session.
  pub session-close :
      (now later h : ℕ) (d d' : Device E)
      → close_session now h d ≡ (ok tt, d')
      → session later h d' ≡ none
  unfolding close_session session
  session-close now later h d d' e = elim (Result-cases (located now h d)) [
    | inr (x, failed) ↦ ground arith
    | inl ((i, t), found) ↦ elim (close_session-cases h t) [
      | inl refused ↦ ground arith
      | inr done ↦
          let map_eq : d'.session_slot_map ≡ remove h d.session_slot_map = ground arith in
          let gone : get h d'.session_slot_map ≡ none =
            ground (arith, map_eq, get-remove h h d.session_slot_map) in
          ground (arith, gone)
    ]
  ]
