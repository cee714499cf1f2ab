-- ===== src/P11/Device/Sessions.antt =====
-- Where the sessions of a device are: each is in the token of the slot that its handle is mapped to.
use aws_nitro_enclaves_acm.Prelude.{
  ℕ, ◌<◌, leb, ◌≡◌, ◌≢◌, sym, subst, ap, ◌∙◌, some, List, length, get_elem?, set,
  get_elem?-set_cases, set-same, get_elem?-none, All, ok, arith, Bool-cases, Option-cases, inl, inr,
}
use aws_nitro_enclaves_acm.Prelude.Assoc.{Assoc, get}
use aws_nitro_enclaves_acm.P11.Crypto.Evp.{Evp}
use aws_nitro_enclaves_acm.P11.Session.{Session}
use aws_nitro_enclaves_acm.P11.Token.Within.{Within}
use aws_nitro_enclaves_acm.P11.Token
use aws_nitro_enclaves_acm.P11.Device.{
  Slot, Device, slot_token, slot, token, token_unchecked, put_token,
}

module _ {E : Evp} where
  -- Every session of every slot, expired or not, is mapped to its slot.
  abbrev pub PlacedIn : List (Slot E) → Assoc ℕ → Type 0
  PlacedIn slots map =
      (i : ℕ) (s : Slot E) (t : Token.Token E) (h : ℕ) (se : Session E)
      → get_elem? slots i ≡ some s
      → s.token ≡ some t
      → get h t.sessions ≡ some se
      → get h map ≡ some i

  -- And every handle that was given is below the next one.
  abbrev pub WellPlaced : Device E → Type 0
  WellPlaced d =
      PlacedIn d.slots d.session_slot_map
      × All (λ hv. hv.0 < d.next_session_handle) d.session_slot_map

  -- The token of a slot, expired or not.
  abbrev pub Holds : Device E → ℕ → Token.Token E → Type 0
  Holds d i t = (s : Slot E) × (get_elem? d.slots i ≡ some s) × (s.token ≡ some t)

  pub slot-get : (i : ℕ) (d : Device E) → slot i d ≡ get_elem? d.slots i
  unfolding slot
  slot-get i d = elim (Bool-cases (leb (length d.slots) i)) [
    | inl out ↦ ground (arith, get_elem?-none d.slots i)
    | inr inside ↦ ground arith
  ]

  slot-found :
      (d : Device E) (i : ℕ) (s : Slot E) → slot i d ≡ some s → get_elem? d.slots i ≡ some s
  unfolding slot
  slot-found d i s h = ground arith

  slot_token-some :
      (now : ℕ) (s : Slot E) (t : Token.Token E) → slot_token now s ≡ some t → s.token ≡ some t
  unfolding slot_token
  slot_token-some now s t h = ground arith

  pub token-Holds :
      (now i : ℕ) (d : Device E) (t : Token.Token E) → token now i d ≡ ok t → Holds d i t
  unfolding token
  token-Holds now i d t h = elim (Option-cases (slot i d)) [
    | inl none_ ↦ ground arith
    | inr (s, found) ↦ (s, slot-found d i s found, slot_token-some now s t (ground arith))
  ]

  pub token_unchecked-Holds :
      (i : ℕ) (d : Device E) (t : Token.Token E) → token_unchecked i d ≡ ok t → Holds d i t
  unfolding token_unchecked
  token_unchecked-Holds i d t h = elim (Option-cases (slot i d)) [
    | inl none_ ↦ ground arith
    | inr (s, found) ↦ (s, slot-found d i s found, ground arith)
  ]

  pub set-PlacedIn :
      (slots : List (Slot E)) (map map' : Assoc ℕ) (i : ℕ) (s' : Slot E)
      → ((t : Token.Token E) (h : ℕ) (se : Session E)
          → s'.token ≡ some t
          → get h t.sessions ≡ some se
          → get h map' ≡ some i)
      → ((j : ℕ) → j ≢ i → (h : ℕ) → get h map ≡ some j → get h map' ≡ some j)
      → PlacedIn slots map
      → PlacedIn (set slots i s') map'
  set-PlacedIn slots map map' i s' own others w j s t h se at tok has =
      elim (get_elem?-set_cases slots i j s' s at) [
        | inl (same, is) ↦ own t h se (ap (λ r. r.token) (sym is) ∙ tok) has ∙ ap some (sym same)
        | inr (differ, at') ↦ others j differ h (w j s t h se at' tok has)
      ]

  -- A token put in a slot may have the sessions that the new map has there, and the other slots
  -- keep theirs.
  pub put-PlacedIn :
      (d : Device E) (i : ℕ) (t t' : Token.Token E) (map' : Assoc ℕ)
      → Holds d i t
      → ((h : ℕ) (se : Session E) → get h t'.sessions ≡ some se → get h map' ≡ some i)
      → ((j : ℕ) → j ≢ i → (h : ℕ) → get h d.session_slot_map ≡ some j → get h map' ≡ some j)
      → PlacedIn d.slots d.session_slot_map
      → PlacedIn (put_token i t' d).slots map'
  put-PlacedIn d i t t' map' (s, at, tok) own others w =
      let slots' : (put_token i t' d).slots ≡ set d.slots i (record s { token = some t' }) =
        ground arith in
      subst (λ xs. PlacedIn xs map') (sym slots')
        (set-PlacedIn d.slots d.session_slot_map map' i _
          (λ u h se is has. own h se (ground (arith, is, has))) others w)

  pub put-fields :
      (d : Device E) (i : ℕ) (t : Token.Token E)
      → ((put_token i t d).session_slot_map ≡ d.session_slot_map)
        × ((put_token i t d).next_session_handle ≡ d.next_session_handle)
  put-fields d i t = elim (Option-cases (get_elem? d.slots i)) [
    | inl empty ↦ (ground arith, ground arith)
    | inr (s, found) ↦ (ground arith, ground arith)
  ]

  pub put-WellPlaced :
      (d : Device E) (i : ℕ) (t : Token.Token E)
      → PlacedIn (put_token i t d).slots d.session_slot_map
      → All (λ hv. hv.0 < d.next_session_handle) d.session_slot_map
      → WellPlaced (put_token i t d)
  put-WellPlaced d i t p n =
      let (map_eq, next_eq) = put-fields d i t in
      (
        subst (PlacedIn (put_token i t d).slots) (sym map_eq) p,
        subst (λ k. All (λ hv. hv.0 < k) (put_token i t d).session_slot_map) (sym next_eq)
            (subst (All (λ hv. hv.0 < d.next_session_handle)) (sym map_eq) n),
      )

  pub put-Within :
      (d : Device E) (i : ℕ) (t t' : Token.Token E)
      → Holds d i t
      → Within t' t
      → WellPlaced d
      → WellPlaced (put_token i t' d)
  put-Within d i t t' (s, at, tok) sub (w, n) =
      let p =
        put-PlacedIn d i t t' d.session_slot_map (s, at, tok)
          (λ h se has. let (se', had) = sub h se has in w i s t h se' at tok had)
          (λ j differ h m. m) w in
      put-WellPlaced d i t' p n

  -- Putting back the token that a slot holds changes nothing.
  pub put-same : (d : Device E) (i : ℕ) (t : Token.Token E) → Holds d i t → put_token i t d ≡ d
  put-same d i t (s, at, tok) =
      let whole : record s { token = some t } ≡ s = ground (arith, tok) in
      let same = set-same d.slots i (record s { token = some t }) (at ∙ ap some (sym whole)) in
      ground (arith, at, same)
