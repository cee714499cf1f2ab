-- ===== src/P11/Device/Invariant.antt =====
-- The operations on a device keep every session in the slot that its handle is mapped to.
use aws_nitro_enclaves_acm.Prelude.{
  ℕ, suc, ◌+◌, ◌%◌, ◌≤◌, ◌<◌, ◌==◌, ◌≡◌, ◌⊎◌, sym, subst, ap, some, [], ◌∷◌, All, Bytes, Result, ok,
  err, arith, Bool-cases, Option-cases, Result-cases, inl, inr,
}
use aws_nitro_enclaves_acm.Prelude.Assoc.{
  Assoc, get, insert, remove, get-insert, get-remove, All-remove, All-get,
}
use aws_nitro_enclaves_acm.Common.Defs.{u64_mod}
use aws_nitro_enclaves_acm.P11.Error.{Error, TokenError, token_error}
use aws_nitro_enclaves_acm.P11.Crypto.Evp.{Evp}
use aws_nitro_enclaves_acm.P11.Db.{Db}
use aws_nitro_enclaves_acm.P11.Session.{Session, new_session}
use aws_nitro_enclaves_acm.P11.Token
use aws_nitro_enclaves_acm.P11.Token.Within.{
  Within, login-Within, logout-Within, new_in, open_session-cases, close_session-cases,
}
use aws_nitro_enclaves_acm.P11.Device.{
  Device, slot, token, put_token, located, on_session, login, logout, open_token, open_session,
  close_session,
}
use aws_nitro_enclaves_acm.P11.Device.Sessions.{
  WellPlaced, Holds, token-Holds, put-PlacedIn, put-fields, put-Within, put-same,
}

below-All : (n m : ℕ) (map : Assoc ℕ) → n ≤ m → All (λ hv. hv.0 < n) map → All (λ hv. hv.0 < m) map
below-All n m [] le a = tt
below-All n m ((h, v) ∷ map) le a = (omega (arith, a.0), below-All n m map le a.1)

module _ {E : Evp} where
  pub kept : (d' d : Device E) → d' ≡ d → WellPlaced d → WellPlaced d'
  kept d' d same w = subst WellPlaced (sym same) w

  located-Holds :
      (now h : ℕ) (d : Device E) (i : ℕ) (t : Token.Token E)
      → located now h d ≡ ok (i, t)
      → Holds d i t
  located-Holds now h d i t e = elim (Option-cases (get h d.session_slot_map)) [
    | inl none_ ↦ ground arith
    | inr (j, mapped) ↦ elim (Result-cases (token now j d)) [
      | inr (x, failed) ↦ ground arith
      | inl (u, found) ↦
          let same : (j ≡ i) × (u ≡ t) = ground arith in
          subst (Holds d i) same.1 (subst (λ k. Holds d k u) same.0 (token-Holds now j d u found))
    ]
  ]

  on_session-WellPlaced :
      (act : Token.Token E → Result TokenError (Unit {0}) × Token.Token E) (now h : ℕ)
      (d : Device E)
      → ((t : Token.Token E) → Within (act t).1 t)
      → WellPlaced d
      → WellPlaced (on_session act d (located now h d)).1
  on_session-WellPlaced act now h d sub w = elim (Result-cases (located now h d)) [
    | inr (e, failed) ↦ kept (on_session act d (located now h d)).1 d (ground arith) w
    | inl ((i, t), found) ↦
        kept (on_session act d (located now h d)).1 (put_token i (act t).1 d) (ground arith)
          (put-Within d i t (act t).1 (located-Holds now h d i t found) (sub t) w)
  ]

  pub login-WellPlaced :
      (now h : ℕ) (pin : Bytes) (d : Device E) → WellPlaced d → WellPlaced (login now h pin d).1
  unfolding login
  login-WellPlaced now h pin d w =
      on_session-WellPlaced (Token.login h pin) now h d (login-Within h pin) w

  pub logout-WellPlaced : (now h : ℕ) (d : Device E) → WellPlaced d → WellPlaced (logout now h d).1
  unfolding logout
  logout-WellPlaced now h d w = on_session-WellPlaced (Token.logout h) now h d (logout-Within h) w

  open_token-Holds :
      (now i : ℕ) (d : Device E) (t : Token.Token E) → open_token now i d ≡ ok t → Holds d i t
  unfolding token
  open_token-Holds now i d t e = elim (Option-cases (slot i d)) [
    | inl none_ ↦ ground arith
    | inr (s, found) ↦ token-Holds now i d t (ground arith)
  ]

  -- The device once a session was opened.
  abbrev pub with_session : ℕ → Token.Token E → Db → Device E → Device E
  with_session i t db d = record (put_token i (new_in d.next_session_handle t db) d) {
    session_slot_map = insert d.next_session_handle i d.session_slot_map;
    next_session_handle = (d.next_session_handle + 1) % u64_mod;
  }

  with_session-WellPlaced :
      (i : ℕ) (d : Device E) (t : Token.Token E) (db : Db)
      → suc d.next_session_handle < u64_mod
      → Holds d i t
      → WellPlaced d
      → WellPlaced (with_session i t db d)
  unfolding insert
  with_session-WellPlaced i d t db room (s, at, tok) (w, n) =
      let next = d.next_session_handle in
      let map' = insert next i d.session_slot_map in
      let next_eq : suc next ≡ (next + 1) % u64_mod = omega arith in
      let fresh : (h j : ℕ) → get h d.session_slot_map ≡ some j → get h map' ≡ some j = λ h j m.
        let small : h < next = All-get (λ hv. hv.0 < next) h d.session_slot_map j n m in
        ground (arith, m, small, get-insert next h i d.session_slot_map) in
      let own : (h : ℕ) (se : Session E)
          → get h (new_in next t db).sessions ≡ some se
          → get h map' ≡ some i =
        λ h se has. elim (Bool-cases (next == h)) [
          | inl new ↦ ground (arith, get-insert next h i d.session_slot_map)
          | inr old ↦
              let had : get h t.sessions ≡ some se = ground (
                arith,
                has,
                get-insert next h (new_session t.slot_id db (Token.login_state t.user_login))
                    t.sessions,
              ) in
              fresh h i (w i s t h se at tok had)
        ] in
      (
        put-PlacedIn d i t (new_in next t db) map' (s, at, tok) own (λ j differ h m. fresh h j m) w,
        subst (λ k. All (λ hv. hv.0 < k) map') next_eq
            (
              omega arith,
              All-remove _ next d.session_slot_map
                  (below-All next (suc next) d.session_slot_map (omega arith) n),
            ),
      )

  -- Either opening a session fails and changes nothing, or its slot holds a token that has a
  -- database.
  pub open-cases :
      (now i : ℕ) (d : Device E)
      → ((e : Error) × (open_session now i d ≡ (err e, d)))
        ⊎ ((t : Token.Token E) × (db : Db) × Holds d i t
            × (open_session now i d ≡ (ok d.next_session_handle, with_session i t db d)))
  unfolding open_session
  open-cases now i d = elim (Result-cases (open_token now i d)) [
    | inr (e, failed) ↦ inl (e, ground arith)
    | inl (t, found) ↦
        let holds = open_token-Holds now i d t found in
        elim (open_session-cases d.next_session_handle t) [
          | inl (e, refused) ↦
              let same = put-same d i t holds in inl (token_error e, ground (arith, same))
          | inr (db, has, opened) ↦ inr (t, db, holds, ground arith)
        ]
  ]

  pub open-WellPlaced :
      (now i : ℕ) (d : Device E)
      → suc d.next_session_handle < u64_mod
      → WellPlaced d
      → WellPlaced (open_session now i d).1
  open-WellPlaced now i d room w = elim (open-cases now i d) [
    | inl (e, same) ↦ kept (open_session now i d).1 d (ap (λ r. r.1) same) w
    | inr (t, db, holds, opened) ↦
        kept (open_session now i d).1 (with_session i t db d) (ap (λ r. r.1) opened)
          (with_session-WellPlaced i d t db room holds w)
  ]

  abbrev without_session : ℕ → ℕ → Token.Token E → Device E → Device E
  without_session h i t d = record (put_token i (record t { sessions = remove h t.sessions }) d) {
    session_slot_map = remove h d.session_slot_map;
  }

  without_session-WellPlaced :
      (h i : ℕ) (t : Token.Token E) (d : Device E)
      → Holds d i t
      → get h d.session_slot_map ≡ some i
      → WellPlaced d
      → WellPlaced (without_session h i t d)
  without_session-WellPlaced h i t d (s, at, tok) mapped (w, n) =
      let map' = remove h d.session_slot_map in
      let next_eq = (put-fields d i (record t { sessions = remove h t.sessions })).1 in
      (
        put-PlacedIn d i t (record t { sessions = remove h t.sessions }) map' (s, at, tok)
            (λ k se has. elim (Bool-cases (h == k)) [
              | inl gone ↦ ground (arith, has, get-remove h k t.sessions)
              | inr other ↦
                  let had : get k t.sessions ≡ some se =
                    ground (arith, has, get-remove h k t.sessions) in
                  let m = w i s t k se at tok had in
                  ground (arith, m, get-remove h k d.session_slot_map)
            ])
            (λ j differ k m. elim (Bool-cases (h == k)) [
              | inl same ↦ absurd (differ (ground (arith, m, mapped)))
              | inr other ↦ ground (arith, m, get-remove h k d.session_slot_map)
            ])
            w,
        subst (λ k. All (λ hv. hv.0 < k) map') (sym next_eq) (All-remove _ h d.session_slot_map n),
      )

  located-mapped :
      (now h : ℕ) (d : Device E) (i : ℕ) (t : Token.Token E)
      → located now h d ≡ ok (i, t)
      → get h d.session_slot_map ≡ some i
  located-mapped now h d i t e = elim (Option-cases (get h d.session_slot_map)) [
    | inl none_ ↦ ground arith
    | inr (j, mapped) ↦ elim (Result-cases (token now j d)) [
      | inr (x, failed) ↦ ground arith
      | inl (u, found) ↦ ground arith
    ]
  ]

  pub close-WellPlaced :
      (now h : ℕ) (d : Device E) → WellPlaced d → WellPlaced (close_session now h d).1
  unfolding close_session
  close-WellPlaced now h d (w, n) = elim (Result-cases (located now h d)) [
    | inr (e, failed) ↦ kept (close_session now h d).1 d (ground arith) (w, n)
    | inl ((i, t), found) ↦
        let holds = located-Holds now h d i t found in
        elim (close_session-cases h t) [
          | inl refused ↦
              let same = put-same d i t holds in
              kept (close_session now h d).1 d (ground (arith, same)) (w, n)
          | inr done ↦
              kept (close_session now h d).1 (without_session h i t d) (ground arith)
                (without_session-WellPlaced h i t d holds (located-mapped now h d i t found) (w, n))
        ]
  ]
