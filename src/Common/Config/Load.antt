-- ===== src/Common/Config/Load.antt =====
-- What a loaded config holds: exactly the tokens that had not expired when their slot was examined.
use aws_nitro_enclaves_acm.Prelude.{
  ℕ, zero, suc, ◌<◌, ◌≡◌, ◌↔◌, refl, ap, Option, none, some, [], ◌∷◌, arith, length, get_elem?,
}
use aws_nitro_enclaves_acm.Common.Config.{Token, Slots, expire, expire_slots}

pub length-expire_slots :
    (clock : ℕ → ℕ) (slots : Slots) → length (expire_slots clock slots) ≡ length slots
unfolding expire_slots
length-expire_slots clock [] = refl
length-expire_slots clock (s ∷ ss) = ap suc (length-expire_slots (λ i. clock (suc i)) ss)

expire-some :
    (now : ℕ) (s : Option Token) (tok : Token)
    → expire now s ≡ some tok
    → (s ≡ some tok) × (now < tok.expiry_ts)
unfolding expire
expire-some now none tok h = cc
expire-some now (some t) tok h = ground arith

expire-live : (now : ℕ) (tok : Token) → now < tok.expiry_ts → expire now (some tok) ≡ some tok
unfolding expire
expire-live now tok h = ground arith

get_elem?-expire_slots :
    (clock : ℕ → ℕ) (slots : Slots) (i : ℕ) (tok : Token)
    → get_elem? (expire_slots clock slots) i ≡ some (some tok)
    → (get_elem? slots i ≡ some (some tok)) × (clock i < tok.expiry_ts)
unfolding expire_slots
get_elem?-expire_slots clock [] i tok h = cc
get_elem?-expire_slots clock (s ∷ ss) zero tok h = ground (arith, expire-some (clock 0) s tok)
get_elem?-expire_slots clock (s ∷ ss) (suc i) tok h =
    get_elem?-expire_slots (λ k. clock (suc k)) ss i tok h

expire_slots-keeps :
    (clock : ℕ → ℕ) (slots : Slots) (i : ℕ) (tok : Token)
    → get_elem? slots i ≡ some (some tok)
    → clock i < tok.expiry_ts
    → get_elem? (expire_slots clock slots) i ≡ some (some tok)
unfolding expire_slots
expire_slots-keeps clock [] i tok h l = cc
expire_slots-keeps clock (s ∷ ss) zero tok h l = ground (arith, expire-live (clock 0) tok l)
expire_slots-keeps clock (s ∷ ss) (suc i) tok h l =
    expire_slots-keeps (λ k. clock (suc k)) ss i tok h l

-- Slot i of a loaded config holds a token exactly when slot i of the file holds it and the clock, at
-- the time when slot i was examined, had not reached the token's expiry time.
pub get_elem?-expire_slots_iff :
    (clock : ℕ → ℕ) (slots : Slots) (i : ℕ) (tok : Token)
    → (get_elem? (expire_slots clock slots) i ≡ some (some tok))
      ↔ ((get_elem? slots i ≡ some (some tok)) × (clock i < tok.expiry_ts))
get_elem?-expire_slots_iff clock slots i tok =
    (get_elem?-expire_slots clock slots i tok, λ h. expire_slots-keeps clock slots i tok h.0 h.1)
