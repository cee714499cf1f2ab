-- ===== src/P11/Device/Given.antt =====
-- vtok_p11/src/backend/device.rs: the next handle of a device, which only opening a session moves, and
-- the handles it gives.
use aws_nitro_enclaves_acm.Prelude.{
  ℕ, suc, ◌+◌, ◌%◌, ◌<◌, ◌==◌, sym, subst, List, All, ◌++◌, Bool, true, false, ◌≡◌, ◌⊎◌, ap, ◌∙◌,
  refl, Option, none, some, [], ◌∷◌, Bytes, Result, ok, err, arith, Bool-cases, Option-cases,
  Result-cases, inl, inr,
}
use aws_nitro_enclaves_acm.Prelude.Assoc.{get}
use aws_nitro_enclaves_acm.Common.Defs.{u64_mod}
use aws_nitro_enclaves_acm.Common.Config
use aws_nitro_enclaves_acm.P11.Error.{Error, TokenError}
use aws_nitro_enclaves_acm.P11.Crypto.Evp.{Evp}
use aws_nitro_enclaves_acm.P11.Token
use aws_nitro_enclaves_acm.P11.Token.Within.{close_session-cases}
use aws_nitro_enclaves_acm.P11.Device.{
  Slot, Device, World, slot, token, token_unchecked, located, on_session, open_session,
  close_session, close_all_slot_sessions, login, logout, refreshed, reload_slot, reload_from,
  do_reload_slots, reload_slots, session_mut, stamped,
}
use aws_nitro_enclaves_acm.P11.Device.Sessions.{put-fields}
use aws_nitro_enclaves_acm.P11.Device.Invariant.{open-cases}

-- The handle that an answer of `open_session` gives.
abbrev pub handle_of : Result Error ℕ → List ℕ
handle_of (ok h) = h ∷ []
handle_of (err e) = []

-- Every number is above all those that come after it, so none comes twice.
abbrev pub Descending : List ℕ → Type 0
Descending [] = Unit
Descending (h ∷ hs) = All (λ k. k < h) hs × Descending hs

below-suc : (n : ℕ) (hs : List ℕ) → All (λ k. k < n) hs → All (λ k. k < suc n) hs
below-suc n [] a = tt
below-suc n (h ∷ hs) a = (omega (arith, a.0), below-suc n hs a.1)

module _ {E : Evp} where
  -- Two devices that give the same handle next.
  abbrev pub SameNext : Device E → Device E → Type 0
  SameNext d' d = d'.next_session_handle ≡ d.next_session_handle

  on_session-SameNext :
      (act : Token.Token E → Result TokenError (Unit {0}) × Token.Token E) (d : Device E)
      (r : Result Error (ℕ × Token.Token E))
      → SameNext (on_session act d r).1 d
  on_session-SameNext act d (err e) = refl
  on_session-SameNext act d (ok (i, t)) = (put-fields d i (act t).1).1

  pub login-SameNext : (now h : ℕ) (pin : Bytes) (d : Device E) → SameNext (login now h pin d).1 d
  unfolding login
  login-SameNext now h pin d = on_session-SameNext (Token.login h pin) d (located now h d)

  pub logout-SameNext : (now h : ℕ) (d : Device E) → SameNext (logout now h d).1 d
  unfolding logout
  logout-SameNext now h d = on_session-SameNext (Token.logout h) d (located now h d)

  pub close-SameNext : (now h : ℕ) (d : Device E) → SameNext (close_session now h d).1 d
  unfolding close_session
  close-SameNext now h d = elim (Result-cases (located now h d)) [
    | inr (e, failed) ↦ ground arith
    | inl ((i, t), found) ↦ elim (close_session-cases h t) [
      | inl refused ↦ ground (arith, put-fields d i t)
      | inr done ↦ ground (arith, put-fields d i (Token.close_session h t).1)
    ]
  ]

  pub close_all-SameNext :
      (now i : ℕ) (d : Device E) → SameNext (close_all_slot_sessions now i d).1 d
  unfolding close_all_slot_sessions
  close_all-SameNext now i d = elim (Result-cases (token now i d)) [
    | inr (e, failed) ↦ ground arith
    | inl (t, found) ↦ ground (arith, put-fields d i (Token.close_all_sessions t))
  ]

  refreshed-SameNext :
      (i ts : ℕ) (d : Device E) (r : Result Error (Token.Token E)) → SameNext (refreshed i ts d r) d
  refreshed-SameNext i ts d (err e) = refl
  refreshed-SameNext i ts d (ok t) = (put-fields d i (Token.refresh ts t)).1

  reload_slot-SameNext :
      (clock : ℕ → ℕ) (i : ℕ) (c : Option Config.Token) (s : Option (Slot E)) (d : Device E)
      → SameNext (reload_slot clock i c s d) d
  reload_slot-SameNext clock i none none d = refl
  reload_slot-SameNext clock i (some c) none d = refl
  reload_slot-SameNext clock i (some c) (some s) d =
      refreshed-SameNext i c.expiry_ts d (token_unchecked i d)
  reload_slot-SameNext clock i none (some s) d = close_all-SameNext (clock i) i d

  reload_from-SameNext :
      (clock : ℕ → ℕ) (i : ℕ) (cs : Config.Slots) (d : Device E)
      → SameNext (reload_from clock i cs d) d
  unfolding reload_from
  reload_from-SameNext clock i [] d = refl
  reload_from-SameNext clock i (c ∷ cs) d =
      reload_from-SameNext clock (suc i) cs (reload_slot clock i c (slot i d) d)
      ∙ reload_slot-SameNext clock i c (slot i d) d

  do_reload-SameNext : (w : World) (d : Device E) → SameNext (do_reload_slots w d).1 d
  unfolding do_reload_slots
  do_reload-SameNext w d = elim (Option-cases w.config) [
    | inl none_ ↦ ground arith
    | inr (slots, found) ↦ ground (arith, reload_from-SameNext w.reload_clock 0 slots d)
  ]

  stamped-SameNext : (mtime : ℕ) (r : Bool × Device E) → SameNext (stamped mtime r) r.1
  stamped-SameNext mtime (true, d) = refl
  stamped-SameNext mtime (false, d) = refl

  reload_slots-SameNext : (w : World) (d : Device E) → SameNext (reload_slots w d) d
  unfolding reload_slots
  reload_slots-SameNext w d = elim (Option-cases w.modification_time) [
    | inl none_ ↦ ground arith
    | inr (mtime, found) ↦ elim (Bool-cases (mtime == d.config_update_time)) [
      | inl current ↦ ground arith
      | inr stale ↦
          let whole : SameNext (stamped mtime (do_reload_slots w d)) d =
            stamped-SameNext mtime (do_reload_slots w d) ∙ do_reload-SameNext w d in
          ground (arith, whole)
    ]
  ]

  pub session_mut-SameNext : (w : World) (h : ℕ) (d : Device E) → SameNext (session_mut w h d).1 d
  unfolding session_mut
  session_mut-SameNext w h d = elim (Option-cases (get h d.session_slot_map)) [
    | inl none_ ↦ ground arith
    | inr (i, found) ↦ ground (arith, reload_slots-SameNext w d)
  ]

  -- A failed open gives no handle, and a good one gives the next handle and moves on.
  pub open-next :
      (now i : ℕ) (d : Device E)
      → suc d.next_session_handle < u64_mod
      → ((e : Error) × ((open_session now i d).0 ≡ err e) × SameNext (open_session now i d).1 d)
        ⊎ (((open_session now i d).0 ≡ ok d.next_session_handle)
            × ((open_session now i d).1.next_session_handle ≡ suc d.next_session_handle))
  open-next now i d room = elim (open-cases now i d) [
    | inl (e, same) ↦ inl (e, ap (λ r. r.0) same, ap (λ r. r.1.next_session_handle) same)
    | inr (t, db, holds, opened) ↦
        let moved : (d.next_session_handle + 1) % u64_mod ≡ suc d.next_session_handle =
          omega arith in
        inr (ap (λ r. r.0) opened, ap (λ r. r.1.next_session_handle) opened ∙ moved)
  ]

  -- The handles that were given are below the next one, and in order.
  abbrev pub Ordered : Device E → List ℕ → Type 0
  Ordered d hs = All (λ k. k < d.next_session_handle) hs × Descending hs

  pub same-Ordered : (d' d : Device E) (hs : List ℕ) → SameNext d' d → Ordered d hs → Ordered d' hs
  same-Ordered d' d hs same (below, down) =
      (subst (λ n. All (λ k. k < n) hs) (sym same) below, down)

  pub open-Ordered :
      (now i : ℕ) (d : Device E) (hs : List ℕ)
      → suc d.next_session_handle < u64_mod
      → Ordered d hs
      → Ordered (open_session now i d).1 (handle_of (open_session now i d).0 ++ hs)
  open-Ordered now i d hs room (below, down) = elim (open-next now i d room) [
    | inl (e, failed, same) ↦
        subst (λ r. Ordered (open_session now i d).1 (handle_of r ++ hs)) (sym failed)
          (same-Ordered (open_session now i d).1 d hs same (below, down))
    | inr (good, moved) ↦
        let next = d.next_session_handle in
        subst (λ r. Ordered (open_session now i d).1 (handle_of r ++ hs)) (sym good)
          (
            subst (λ n. All (λ k. k < n) (next ∷ hs)) (sym moved)
                (omega arith, below-suc next hs below),
            (below, down),
          )
  ]
