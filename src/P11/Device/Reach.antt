-- ===== src/P11/Device/Reach.antt =====
-- Every device that the provider can come to have its sessions in place.
use aws_nitro_enclaves_acm.Prelude.{
  ℕ, suc, ◌<◌, ◌==◌, ◌≡◌, sym, subst, ap, ◌∙◌, Option, none, some, List, [], ◌∷◌, get_elem?, All,
  Bytes, ok, ◌++◌, arith, Option-cases, Result-cases, inl, inr, if◌then◌else◌, zero,
}
use aws_nitro_enclaves_acm.Prelude.Assoc.{get, update_all}
use aws_nitro_enclaves_acm.Common.Defs.{u64_mod}
use aws_nitro_enclaves_acm.Common.Config
use aws_nitro_enclaves_acm.P11.Device.Given.{
  handle_of, Descending, Ordered, same-Ordered, open-Ordered, close-SameNext, close_all-SameNext,
  login-SameNext, logout-SameNext, session_mut-SameNext,
}
use aws_nitro_enclaves_acm.P11.Crypto.Evp.{Evp}
use aws_nitro_enclaves_acm.P11.Session.{Session}
use aws_nitro_enclaves_acm.P11.Token
use aws_nitro_enclaves_acm.P11.Token.Within.{update-Within}
use aws_nitro_enclaves_acm.P11.Device.{
  Slot, Device, World, put_token, open_session, close_session, close_all_slot_sessions, login,
  logout, session_mut, load_slot, load_slots, new_device,
}
use aws_nitro_enclaves_acm.P11.Device.Sessions.{WellPlaced, Holds, put-Within, put-fields}
use aws_nitro_enclaves_acm.P11.Device.Invariant.{
  open-WellPlaced, close-WellPlaced, login-WellPlaced, logout-WellPlaced,
}
use aws_nitro_enclaves_acm.P11.Device.Reload.{close_all-WellPlaced, session_mut-WellPlaced}

module _ {E : Evp} where
  abbrev changed : Token.Token E → ℕ → (Session E → Session E) → Token.Token E
  changed t h f = record t { sessions = update_all (λ j s. if j == h then f s else s) t.sessions }

  -- A session of a slot's token that an operation of its own changed.
  abbrev pub with_changed : ℕ → Token.Token E → ℕ → (Session E → Session E) → Device E → Device E
  with_changed i t h f d = put_token i (changed t h f) d

  -- The operations on a device, failed ones included. No session is asked for when the next handle
  -- is the last machine number, where the handles would wrap around.
  pub data Step : Device E → Device E → Type 0 where
    by_open :
        {d : Device E} (now i : ℕ)
        → suc d.next_session_handle < u64_mod
        → Step d (open_session now i d).1
    by_close : {d : Device E} (now h : ℕ) → Step d (close_session now h d).1
    by_close_all : {d : Device E} (now i : ℕ) → Step d (close_all_slot_sessions now i d).1
    by_login : {d : Device E} (now h : ℕ) (pin : Bytes) → Step d (login now h pin d).1
    by_logout : {d : Device E} (now h : ℕ) → Step d (logout now h d).1
    by_session_mut : {d : Device E} (w : World) (h : ℕ) → Step d (session_mut w h d).1
    by_session :
        {d : Device E} (i : ℕ) (t : Token.Token E) (h : ℕ) (f : Session E → Session E)
        → Holds d i t
        → Step d (with_changed i t h f d)

  pub data Reachable : Device E → Type 0 where
    initial :
        {d : Device E} (load_db : Token.DbLoader) (w : World)
        → new_device load_db w ≡ ok d
        → Reachable d
    stepped : {d d' : Device E} → Reachable d → Step d d' → Reachable d'

  -- The handles that a step gives to its caller, and those of the whole history, the newest first.
  abbrev pub handles_of : {d d' : Device E} → Step d d' → List ℕ
  handles_of (by_open {d} now i room) = handle_of (open_session now i d).0
  handles_of (by_close now h) = []
  handles_of (by_close_all now i) = []
  handles_of (by_login now h pin) = []
  handles_of (by_logout now h) = []
  handles_of (by_session_mut w h) = []
  handles_of (by_session i t h f holds) = []

  unfoldable pub given : {d : Device E} → Reachable d → List ℕ
  unfolding open_session
  given (initial load_db w h) = []
  given (stepped r s) = handles_of s ++ given r

  Step-WellPlaced : (d d' : Device E) → Step d d' → WellPlaced d → WellPlaced d'
  Step-WellPlaced d _ (by_open now i room) w = open-WellPlaced now i d room w
  Step-WellPlaced d _ (by_close now h) w = close-WellPlaced now h d w
  Step-WellPlaced d _ (by_close_all now i) w = close_all-WellPlaced now i d w
  Step-WellPlaced d _ (by_login now h pin) w = login-WellPlaced now h pin d w
  Step-WellPlaced d _ (by_logout now h) w = logout-WellPlaced now h d w
  Step-WellPlaced d _ (by_session_mut u h) w = session_mut-WellPlaced u h d w
  Step-WellPlaced d _ (by_session i t h f holds) w =
      put-Within d i t _ holds (update-Within t (λ j s. if j == h then f s else s)) w

  -- No token of a slot has a session.
  abbrev AllEmpty : List (Slot E) → Type 0
  AllEmpty slots =
      (i : ℕ) (s : Slot E) (t : Token.Token E)
      → get_elem? slots i ≡ some s
      → s.token ≡ some t
      → t.sessions ≡ []

  load_slot-empty :
      (load_db : Token.DbLoader) (i : ℕ) (c : Option Config.Token) (s : Slot E) (t : Token.Token E)
      → load_slot load_db i c ≡ ok s
      → s.token ≡ some t
      → t.sessions ≡ []
  unfolding Token.from_config
  load_slot-empty load_db i none s t h tok = ground arith
  load_slot-empty load_db i (some c) s t h tok = elim (Result-cases (load_db c)) [
    | inr (e, failed) ↦ ground arith
    | inl (db, good) ↦ ground arith
  ]

  nothing :
      (slots : List (Slot E)) (j : ℕ) (s : Slot E) → slots ≡ [] → get_elem? slots j ≡ some s → ⊥
  nothing [] j s e h = ground arith
  nothing (x ∷ xs) j s e h = ground arith

  first-empty :
      (load_db : Token.DbLoader) (i : ℕ) (c : Option Config.Token) (s₀ : Slot E)
      (ss : List (Slot E))
      → load_slot load_db i c ≡ ok s₀
      → AllEmpty ss
      → AllEmpty (s₀ ∷ ss)
  first-empty load_db i c s₀ ss first rest zero s t at tok =
      let same : s ≡ s₀ = ground arith in
      load_slot-empty load_db i c s₀ t first (ap (λ r. r.token) (sym same) ∙ tok)
  first-empty load_db i c s₀ ss first rest (suc j) s t at tok = rest j s t at tok

  load_slots-empty :
      (load_db : Token.DbLoader) (i : ℕ) (cs : Config.Slots) (slots : List (Slot E))
      → load_slots load_db i cs ≡ ok slots
      → AllEmpty slots
  unfolding load_slots
  load_slots-empty load_db i [] slots h j s t at tok =
      let none_ : slots ≡ [] = ground arith in absurd (nothing slots j s none_ at)
  load_slots-empty load_db i (c ∷ cs) slots h j s t at tok =
      elim (Result-cases (load_slot {E = E} load_db i c)) [
        | inr (e, failed) ↦ ground arith
        | inl (s₀, first) ↦ elim (Result-cases (load_slots {E = E} load_db (suc i) cs)) [
          | inr (e, failed) ↦ ground arith
          | inl (ss, rest) ↦
              let is : slots ≡ s₀ ∷ ss = ground arith in
              first-empty load_db i c s₀ ss first (load_slots-empty load_db (suc i) cs ss rest) j s
                t (ap (λ xs. get_elem? xs j) (sym is) ∙ at) tok
        ]
      ]

  empty-WellPlaced : (d : Device E) → d.session_slot_map ≡ [] → AllEmpty d.slots → WellPlaced d
  unfolding get
  empty-WellPlaced d none_ empty = (
    λ i s t h se at tok has. let no_ = empty i s t at tok in ground (arith, no_, has),
    subst (All (λ hv. hv.0 < d.next_session_handle)) (sym none_) tt,
  )

  new_device-WellPlaced :
      (load_db : Token.DbLoader) (w : World) (d : Device E)
      → new_device load_db w ≡ ok d
      → WellPlaced d
  unfolding new_device
  new_device-WellPlaced load_db w d h = elim (Option-cases w.config) [
    | inl none_ ↦ ground arith
    | inr (config, has_config) ↦ elim (Option-cases w.modification_time) [
      | inl none_ ↦ ground arith
      | inr (mtime, has_mtime) ↦ elim (Result-cases (load_slots {E = E} load_db 0 config)) [
        | inr (e, failed) ↦ ground arith
        | inl (slots, loaded) ↦
            let slots_eq : d.slots ≡ slots = ground arith in
            let map_eq : d.session_slot_map ≡ [] = ground arith in
            empty-WellPlaced d map_eq
              (subst AllEmpty (sym slots_eq) (load_slots-empty load_db 0 config slots loaded))
      ]
    ]
  ]

  Step-Ordered :
      (d d' : Device E) (s : Step d d') (hs : List ℕ)
      → Ordered d hs
      → Ordered d' (handles_of s ++ hs)
  Step-Ordered d _ (by_open now i room) hs o = open-Ordered now i d hs room o
  Step-Ordered d _ (by_close now h) hs o =
      same-Ordered (close_session now h d).1 d hs (close-SameNext now h d) o
  Step-Ordered d _ (by_close_all now i) hs o =
      same-Ordered (close_all_slot_sessions now i d).1 d hs (close_all-SameNext now i d) o
  Step-Ordered d _ (by_login now h pin) hs o =
      same-Ordered (login now h pin d).1 d hs (login-SameNext now h pin d) o
  Step-Ordered d _ (by_logout now h) hs o =
      same-Ordered (logout now h d).1 d hs (logout-SameNext now h d) o
  Step-Ordered d _ (by_session_mut w h) hs o =
      same-Ordered (session_mut w h d).1 d hs (session_mut-SameNext w h d) o
  Step-Ordered d _ (by_session i t h f holds) hs o =
      same-Ordered (with_changed i t h f d) d hs (put-fields d i (changed t h f)).1 o

  reachable-Ordered : (d : Device E) (r : Reachable d) → Ordered d (given r)
  unfolding given
  reachable-Ordered d (initial load_db w h) = (tt, tt)
  reachable-Ordered d (stepped r s) = Step-Ordered _ d s (given r) (reachable-Ordered _ r)

  placed : (d : Device E) → Reachable d → WellPlaced d
  placed d (initial load_db w h) = new_device-WellPlaced load_db w d h
  placed d (stepped r s) = Step-WellPlaced _ d s (placed _ r)

  -- However the provider came to its device, if it was not asked to open a session when the next
  -- handle was 2^64 - 1, so that handles do not wrap around: every session in the token of a slot has
  -- a handle that is mapped to that slot, every mapped handle is below the next one, and each handle
  -- that `open_session` gave is above all those it gave before, so that none is given twice.
  pub reachable-WellPlaced : (d : Device E) (r : Reachable d) → WellPlaced d × Descending (given r)
  reachable-WellPlaced d r = (placed d r, (reachable-Ordered d r).1)
