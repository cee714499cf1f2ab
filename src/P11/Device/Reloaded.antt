-- ===== src/P11/Device/Reloaded.antt =====
-- What reloading leaves in each slot.
use aws_nitro_enclaves_acm.Prelude.{
  ℕ, zero, suc, ◌+◌, ◌<◌, ◌==◌, true, false, ◌≡◌, ◌≢◌, refl, sym, subst, ap, ◌∙◌, Option, none,
  some, [], ◌∷◌, get_elem?, length, get_elem?-set_self, get_elem?-set_ne, get_elem?-length,
  length-set, arith, Bool-cases, ==_iff, Option-cases, Result-cases, inl, inr, if◌then◌else◌,
}
use aws_nitro_enclaves_acm.Common.Config
use aws_nitro_enclaves_acm.P11.Crypto.Evp.{Evp}
use aws_nitro_enclaves_acm.P11.Token
use aws_nitro_enclaves_acm.P11.Device.{
  Slot, Device, World, slot, token, token_unchecked, put_token, close_all_slot_sessions, refreshed,
  new_slot, reload_slot, reload_from, do_reload_slots,
}
use aws_nitro_enclaves_acm.P11.Device.Sessions.{token-Holds, slot-get}

-- The entry of slot j in a config whose first slot is i.
abbrev pub entry : ℕ → Config.Slots → ℕ → Option (Option Config.Token)
entry i [] j = none
entry i (c ∷ cs) j = if i == j then some c else entry (suc i) cs j

entry-past : (i : ℕ) (cs : Config.Slots) (j : ℕ) → j < i → entry i cs j ≡ none
entry-past i [] j h = refl
entry-past i (c ∷ cs) j h = ground (arith, entry-past (suc i) cs j)

entry-get : (i : ℕ) (cs : Config.Slots) (j : ℕ) → entry i cs (i + j) ≡ get_elem? cs j
entry-get i [] j = refl
entry-get i (c ∷ cs) zero = ground arith
entry-get i (c ∷ cs) (suc j) =
    let later = entry-get (suc i) cs j in
    let shift : i + suc j ≡ suc i + j = omega arith in ground (arith, later, shift)

entry-first : (cs : Config.Slots) (j : ℕ) → entry 0 cs j ≡ get_elem? cs j
entry-first cs j =
    let zeroth : 0 + j ≡ j = omega arith in
    subst (λ k. entry 0 cs k ≡ get_elem? cs j) zeroth (entry-get 0 cs j)

entry-here :
    (i : ℕ) (c : Option Config.Token) (cs : Config.Slots) (j : ℕ)
    → (i == j) ≡ true
    → some c ≡ entry i (c ∷ cs) j
entry-here i c cs j h = ground (arith, h)

entry-later :
    (i : ℕ) (c : Option Config.Token) (cs : Config.Slots) (j : ℕ)
    → (i == j) ≡ false
    → entry (suc i) cs j ≡ entry i (c ∷ cs) j
entry-later i c cs j h = ground (arith, h)

module _ {E : Evp} where
  abbrev refresh_token : ℕ → Option (Token.Token E) → Option (Token.Token E)
  refresh_token ts none = none
  refresh_token ts (some t) = some (record t { expiry_ts = ts })

  refresh_lem : (ts : ℕ) (t : Token.Token E) → Token.refresh ts t ≡ record t { expiry_ts = ts }
  unfolding Token.refresh
  refresh_lem ts t = elim (Bool-cases (ts == t.expiry_ts)) [
    | inl same ↦ ground (arith, same, (==_iff ts t.expiry_ts).0 same)
    | inr differ ↦ ground (arith, differ)
  ]

  -- What a slot becomes by its entry in the config: without one it stays, with an empty one its
  -- token is gone, and with a token it keeps its own, refreshed, if it has one.
  abbrev pub reloaded : ℕ → Option (Option Config.Token) → Slot E → Slot E
  reloaded i none s = s
  reloaded i (some none) s = new_slot i
  reloaded i (some (some c)) s = record s { token = refresh_token c.expiry_ts s.token }

  abbrev pub reloaded? : ℕ → Option (Option Config.Token) → Option (Slot E) → Option (Slot E)
  reloaded? i c none = none
  reloaded? i c (some s) = some (reloaded i c s)

  put-other :
      (d : Device E) (i j : ℕ) (t : Token.Token E)
      → i ≢ j
      → get_elem? (put_token i t d).slots j ≡ get_elem? d.slots j
  put-other d i j t ne = elim (Option-cases (get_elem? d.slots i)) [
    | inl none_ ↦ ground arith
    | inr (s, found) ↦ ground (arith, get_elem?-set_ne d.slots (record s { token = some t }) ne)
  ]

  close_all-other :
      (now i j : ℕ) (d : Device E)
      → i ≢ j
      → get_elem? (close_all_slot_sessions now i d).1.slots j ≡ get_elem? d.slots j
  unfolding close_all_slot_sessions
  close_all-other now i j d ne = elim (Result-cases (token now i d)) [
    | inr (e, failed) ↦ ground arith
    | inl (t, found) ↦ ground (arith, put-other d i j (Token.close_all_sessions t) ne)
  ]

  reload_slot-other :
      (clock : ℕ → ℕ) (i j : ℕ) (c : Option Config.Token) (s : Option (Slot E)) (d : Device E)
      → i ≢ j
      → get_elem? (reload_slot clock i c s d).slots j ≡ get_elem? d.slots j
  reload_slot-other clock i j none none d ne = refl
  reload_slot-other clock i j (some c) none d ne = refl
  reload_slot-other clock i j none (some s) d ne =
      get_elem?-set_ne (close_all_slot_sessions (clock i) i d).1.slots (new_slot i) ne
      ∙ close_all-other (clock i) i j d ne
  reload_slot-other clock i j (some c) (some s) d ne = elim (Result-cases (token_unchecked i d)) [
    | inr (e, failed) ↦ ground arith
    | inl (t, found) ↦ ground (arith, put-other d i j (Token.refresh c.expiry_ts t) ne)
  ]

  length-close_all :
      (now i : ℕ) (d : Device E) → length (close_all_slot_sessions now i d).1.slots ≡ length d.slots
  unfolding close_all_slot_sessions
  length-close_all now i d = elim (Result-cases (token now i d)) [
    | inr (e, failed) ↦ ground arith
    | inl (t, found) ↦
        let (s, at, tok) = token-Holds now i d t found in
        ground
          (arith, at, length-set d.slots i (record s { token = some (Token.close_all_sessions t) }))
  ]

  refreshed_self :
      (i ts : ℕ) (d : Device E) (s : Slot E)
      → get_elem? d.slots i ≡ some s
      → get_elem? (refreshed i ts d (token_unchecked i d)).slots i
        ≡ some (record s { token = refresh_token ts s.token })
  unfolding token_unchecked
  refreshed_self i ts d s at =
      let found : slot i d ≡ some s = slot-get i d ∙ at in
      elim (Option-cases s.token) [
        | inl tok_none ↦ ground (arith, at, found, tok_none)
        | inr (t, tok) ↦
            let put =
              get_elem?-set_self d.slots i (record s { token = some (Token.refresh ts t) })
                (get_elem?-length d.slots i s at) in
            ground (arith, at, found, tok, put, refresh_lem ts t)
      ]

  reload_slot_self :
      (clock : ℕ → ℕ) (i : ℕ) (c : Option Config.Token) (d : Device E)
      → get_elem? (reload_slot clock i c (get_elem? d.slots i) d).slots i
        ≡ reloaded? i (some c) (get_elem? d.slots i)
  reload_slot_self clock i none d = elim (Option-cases (get_elem? d.slots i)) [
    | inl none_ ↦ ground arith
    | inr (s, at) ↦
        let closed = (close_all_slot_sessions (clock i) i d).1.slots in
        let inside : i < length closed =
          ground (arith, length-close_all (clock i) i d, get_elem?-length d.slots i s at) in
        ground (arith, at, get_elem?-set_self closed i (new_slot i) inside)
  ]
  reload_slot_self clock i (some c) d = elim (Option-cases (get_elem? d.slots i)) [
    | inl none_ ↦ ground arith
    | inr (s, at) ↦ let kept = refreshed_self i c.expiry_ts d s at in ground (arith, at, kept)
  ]

  reloaded?-none : (j : ℕ) (s : Option (Slot E)) → reloaded? j none s ≡ s
  reloaded?-none j none = refl
  reloaded?-none j (some s) = refl

  get_elem?-reload_from :
      (clock : ℕ → ℕ) (i j : ℕ) (cs : Config.Slots) (d : Device E)
      → get_elem? (reload_from clock i cs d).slots j
        ≡ reloaded? j (entry i cs j) (get_elem? d.slots j)
  unfolding reload_from
  get_elem?-reload_from clock i j [] d = sym (reloaded?-none j (get_elem? d.slots j))
  get_elem?-reload_from clock i j (c ∷ cs) d =
      let d₁ = reload_slot clock i c (slot i d) d in
      let ih = get_elem?-reload_from clock (suc i) j cs d₁ in
      elim (Bool-cases (i == j)) [
        | inl same ↦
            let eq : i ≡ j = (==_iff _ _).0 same in
            let past = entry-past (suc i) cs j (omega (arith, eq)) in
            let self : get_elem? d₁.slots i ≡ reloaded? i (some c) (get_elem? d.slots i) =
              subst
                (λ s.
                  get_elem? (reload_slot clock i c s d).slots i
                  ≡ reloaded? i (some c) (get_elem? d.slots i))
                (sym (slot-get i d)) (reload_slot_self clock i c d) in
            ih
            ∙ ap (λ e. reloaded? j e (get_elem? d₁.slots j)) past
            ∙ reloaded?-none j (get_elem? d₁.slots j)
            ∙ subst (λ k. get_elem? d₁.slots k ≡ reloaded? k (some c) (get_elem? d.slots k)) eq self
            ∙ ap (λ e. reloaded? j e (get_elem? d.slots j)) (entry-here i c cs j same)
        | inr differ ↦
            let other =
              reload_slot-other clock i j c (slot i d) d (λ e. ground (arith, differ, e)) in
            ih
            ∙ ap (reloaded? j (entry (suc i) cs j)) other
            ∙ ap (λ e. reloaded? j e (get_elem? d.slots j)) (entry-later i c cs j differ)
      ]

  -- After the slots are reloaded from a config, a slot that has no entry there is as it was, one
  -- with an empty entry has no token, and one with a token there keeps the token that it had, if it
  -- had one, with the expiry time of the entry: it never gets a token that it did not have.
  pub get_elem?-do_reload_slots :
      (w : World) (config : Config.Slots) (d : Device E) (j : ℕ)
      → w.config ≡ some config
      → get_elem? (do_reload_slots w d).1.slots j
        ≡ reloaded? j (get_elem? config j) (get_elem? d.slots j)
  unfolding do_reload_slots
  get_elem?-do_reload_slots w config d j h =
      let whole : (do_reload_slots w d).1 ≡ reload_from w.reload_clock 0 config d = ground arith in
      ap (λ x. get_elem? x.slots j) whole
      ∙ get_elem?-reload_from w.reload_clock 0 j config d
      ∙ ap (λ e. reloaded? j e (get_elem? d.slots j)) (entry-first config j)
