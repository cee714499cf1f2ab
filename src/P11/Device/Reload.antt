-- ===== src/P11/Device/Reload.antt =====
-- Closing the sessions of a slot, and reloading the slots from the config.
use aws_nitro_enclaves_acm.Prelude.{
  ℕ, suc, ◌==◌, Bool, true, false, not, ◌≡◌, sym, subst, Option, none, some, [], ◌∷◌, set, All, ◌<◌,
  arith, Bool-cases, Option-cases, Result-cases, inl, inr,
}
use aws_nitro_enclaves_acm.Prelude.Assoc.{get, retain, get-retain_kept, All-retain}
use aws_nitro_enclaves_acm.Common.Config
use aws_nitro_enclaves_acm.P11.Crypto.Evp.{Evp}
use aws_nitro_enclaves_acm.P11.Token
use aws_nitro_enclaves_acm.P11.Token.Within.{refresh-Within}
use aws_nitro_enclaves_acm.P11.Device.{
  Slot, Device, World, slot, token, token_unchecked, put_token, close_all_slot_sessions, refreshed,
  new_slot, reload_slot, reload_from, do_reload_slots, reload_slots, session_mut, stamped,
}
use aws_nitro_enclaves_acm.P11.Device.Sessions.{
  WellPlaced, Holds, token-Holds, token_unchecked-Holds, set-PlacedIn, put-PlacedIn, put-fields,
  put-Within,
}

module _ {E : Evp} where
  kept : (d' d : Device E) → d' ≡ d → WellPlaced d → WellPlaced d'
  kept d' d same w = subst WellPlaced (sym same) w

  abbrev emptied : ℕ → Token.Token E → Device E → Device E
  emptied i t d = record (put_token i (Token.close_all_sessions t) d) {
    session_slot_map = retain (λ sid. not (sid == i)) d.session_slot_map;
  }

  emptied-WellPlaced :
      (i : ℕ) (t : Token.Token E) (d : Device E)
      → Holds d i t
      → WellPlaced d
      → WellPlaced (emptied i t d)
  unfolding get Token.close_all_sessions
  emptied-WellPlaced i t d holds (w, n) =
      let map' = retain (λ sid. not (sid == i)) d.session_slot_map in
      let next_eq = (put-fields d i (Token.close_all_sessions t)).1 in
      (
        put-PlacedIn d i t (Token.close_all_sessions t) map' holds (λ k se has. ground arith)
            (λ j differ k m.
              get-retain_kept (λ sid. not (sid == i)) k d.session_slot_map j m (ground arith))
            w,
        subst (λ k. All (λ hv. hv.0 < k) map') (sym next_eq)
            (All-retain _ (λ sid. not (sid == i)) d.session_slot_map n),
      )

  pub close_all-WellPlaced :
      (now i : ℕ) (d : Device E) → WellPlaced d → WellPlaced (close_all_slot_sessions now i d).1
  unfolding close_all_slot_sessions
  close_all-WellPlaced now i d w = elim (Result-cases (token now i d)) [
    | inr (e, failed) ↦ kept (close_all_slot_sessions now i d).1 d (ground arith) w
    | inl (t, found) ↦
        kept (close_all_slot_sessions now i d).1 (emptied i t d) (ground arith)
          (emptied-WellPlaced i t d (token-Holds now i d t found) w)
  ]

  cleared-WellPlaced :
      (i : ℕ) (d : Device E)
      → WellPlaced d
      → WellPlaced (record d { slots = set d.slots i (new_slot i) })
  cleared-WellPlaced i d (w, n) = (
    set-PlacedIn d.slots d.session_slot_map d.session_slot_map i (new_slot i)
        (λ t h se is has. ground arith) (λ j differ h m. m) w,
    n,
  )

  refreshed-WellPlaced :
      (i ts : ℕ) (d : Device E) → WellPlaced d → WellPlaced (refreshed i ts d (token_unchecked i d))
  refreshed-WellPlaced i ts d w = elim (Result-cases (token_unchecked i d)) [
    | inr (e, failed) ↦ kept (refreshed i ts d (token_unchecked i d)) d (ground arith) w
    | inl (t, found) ↦
        kept (refreshed i ts d (token_unchecked i d)) (put_token i (Token.refresh ts t) d)
          (ground arith)
          (put-Within d i t (Token.refresh ts t) (token_unchecked-Holds i d t found)
            (refresh-Within ts t) w)
  ]

  reload_slot-WellPlaced :
      (clock : ℕ → ℕ) (i : ℕ) (c : Option Config.Token) (s : Option (Slot E)) (d : Device E)
      → WellPlaced d
      → WellPlaced (reload_slot clock i c s d)
  reload_slot-WellPlaced clock i none none d w = w
  reload_slot-WellPlaced clock i (some c) none d w = w
  reload_slot-WellPlaced clock i (some c) (some s) d w = refreshed-WellPlaced i c.expiry_ts d w
  reload_slot-WellPlaced clock i none (some s) d w =
      cleared-WellPlaced i (close_all_slot_sessions (clock i) i d).1
        (close_all-WellPlaced (clock i) i d w)

  reload_from-WellPlaced :
      (clock : ℕ → ℕ) (i : ℕ) (cs : Config.Slots) (d : Device E)
      → WellPlaced d
      → WellPlaced (reload_from clock i cs d)
  unfolding reload_from
  reload_from-WellPlaced clock i [] d w = w
  reload_from-WellPlaced clock i (c ∷ cs) d w =
      reload_from-WellPlaced clock (suc i) cs (reload_slot clock i c (slot i d) d)
        (reload_slot-WellPlaced clock i c (slot i d) d w)

  do_reload-WellPlaced :
      (w : World) (d : Device E) → WellPlaced d → WellPlaced (do_reload_slots w d).1
  unfolding do_reload_slots
  do_reload-WellPlaced w d wf = elim (Option-cases w.config) [
    | inl none_ ↦ kept (do_reload_slots w d).1 d (ground arith) wf
    | inr (slots, found) ↦
        kept (do_reload_slots w d).1 (reload_from w.reload_clock 0 slots d) (ground arith)
          (reload_from-WellPlaced w.reload_clock 0 slots d wf)
  ]

  -- The time of the config is not part of the invariant.
  stamped-WellPlaced :
      (mtime : ℕ) (r : Bool × Device E) → WellPlaced r.1 → WellPlaced (stamped mtime r)
  stamped-WellPlaced mtime (true, d) wf = wf
  stamped-WellPlaced mtime (false, d) wf = wf

  pub reload_slots-WellPlaced :
      (w : World) (d : Device E) → WellPlaced d → WellPlaced (reload_slots w d)
  unfolding reload_slots
  reload_slots-WellPlaced w d wf = elim (Option-cases w.modification_time) [
    | inl none_ ↦ kept (reload_slots w d) d (ground arith) wf
    | inr (mtime, found) ↦ elim (Bool-cases (mtime == d.config_update_time)) [
      | inl current ↦ kept (reload_slots w d) d (ground arith) wf
      | inr stale ↦
          kept (reload_slots w d) (stamped mtime (do_reload_slots w d)) (ground arith)
            (stamped-WellPlaced mtime (do_reload_slots w d) (do_reload-WellPlaced w d wf))
    ]
  ]

  pub session_mut-WellPlaced :
      (w : World) (h : ℕ) (d : Device E) → WellPlaced d → WellPlaced (session_mut w h d).1
  unfolding session_mut
  session_mut-WellPlaced w h d wf = elim (Option-cases (get h d.session_slot_map)) [
    | inl none_ ↦ kept (session_mut w h d).1 d (ground arith) wf
    | inr (i, found) ↦
        kept (session_mut w h d).1 (reload_slots w d) (ground arith)
          (reload_slots-WellPlaced w d wf)
  ]
