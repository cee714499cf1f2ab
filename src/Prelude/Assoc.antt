-- ===== src/Prelude/Assoc.antt =====
-- `HashMap` with integer keys, as a list of entries with one entry for each key that was inserted.
use aws_nitro_enclaves_acm.Prelude.Tests.{◌==◌, if◌then◌else◌, Bool-cases}
use aws_nitro_enclaves_acm.Prelude.Lists.{length, All}
use Prim.Native.Nat.{ℕ, suc, ◌≤◌}
use mathlib.Core.Path.{◌≡◌, refl, ap, subst}
use mathlib.Core.Logic.{inl, inr}
use mathlib.Core.Bool.{Bool, true}
use mathlib.Core.List.{List, [], ◌∷◌}
use mathlib.Core.Option.{Option, none, some}
use native.Mathlib.Omega.{arith}

abbrev pub Assoc {ℓ} : Type ℓ → Type ℓ
Assoc V = List (ℕ × V)

module _ {ℓ} {V : Type ℓ} where
  unfoldable pub get : ℕ → Assoc V → Option V
  get k [] = none
  get k ((j, v) ∷ m) = if j == k then some v else get k m

  unfoldable pub remove : ℕ → Assoc V → Assoc V
  remove k [] = []
  remove k ((j, v) ∷ m) = let rest = remove k m in if j == k then rest else (j, v) ∷ rest

  unfoldable pub insert : ℕ → V → Assoc V → Assoc V
  insert k v m = (k, v) ∷ remove k m

  -- `retain` by a test on the values.
  unfoldable pub retain : (V → Bool) → Assoc V → Assoc V
  retain p [] = []
  retain p ((j, v) ∷ m) = let rest = retain p m in if p v then (j, v) ∷ rest else rest

  -- A change of every value, given its key.
  unfoldable pub update_all : (ℕ → V → V) → Assoc V → Assoc V
  update_all f [] = []
  update_all f ((j, v) ∷ m) = (j, f j v) ∷ update_all f m

  pub get-remove : (k j : ℕ) (m : Assoc V) → get j (remove k m) ≡ (if k == j then none else get j m)
  unfolding get remove
  get-remove k j [] = ground arith
  get-remove k j ((i, v) ∷ m) = ground (arith, get-remove k j m)

  pub get-insert :
      (k j : ℕ) (v : V) (m : Assoc V) → get j (insert k v m) ≡ (if k == j then some v else get j m)
  unfolding get insert
  get-insert k j v m = ground (arith, get-remove k j m)

  pub get-update_all-none :
      (f : ℕ → V → V) (k : ℕ) (m : Assoc V) → get k m ≡ none → get k (update_all f m) ≡ none
  unfolding get update_all
  get-update_all-none f k [] h = refl
  get-update_all-none f k ((j, v) ∷ m) h = ground (arith, get-update_all-none f k m)

  pub get-update_all :
      (f : ℕ → V → V) (k : ℕ) (m : Assoc V) (v : V)
      → get k m ≡ some v
      → get k (update_all f m) ≡ some (f k v)
  unfolding get update_all
  get-update_all f k [] v h = cc
  get-update_all f k ((j, w) ∷ m) v h = ground (arith, get-update_all f k m v)

  pub get-retain :
      (p : V → Bool) (k : ℕ) (m : Assoc V) (v : V) → get k (retain p m) ≡ some v → (p v ≡ true)
  unfolding get retain
  get-retain p k [] v h = cc
  get-retain p k ((j, w) ∷ m) v h = ground (arith, get-retain p k m v)

  pub get-retain_kept :
      (p : V → Bool) (k : ℕ) (m : Assoc V) (v : V)
      → get k m ≡ some v
      → p v ≡ true
      → get k (retain p m) ≡ some v
  unfolding get retain
  get-retain_kept p k [] v h t = cc
  get-retain_kept p k ((j, w) ∷ m) v h t = ground (arith, get-retain_kept p k m v)

  pub get-update_all_inv :
      (f : ℕ → V → V) (k : ℕ) (m : Assoc V) (v : V)
      → get k (update_all f m) ≡ some v
      → (w : V) × (get k m ≡ some w)
  unfolding get update_all
  get-update_all_inv f k [] v h = cc
  get-update_all_inv f k ((j, w) ∷ m) v h = elim (Bool-cases (j == k)) [
    | inl hit ↦ (w, ground arith)
    | inr miss ↦
        let (u, found) = get-update_all_inv f k m v (ground arith) in (u, ground (arith, found))
  ]

  pub length-remove-le : (k : ℕ) (m : Assoc V) → length (remove k m) ≤ length m
  unfolding remove
  length-remove-le k [] = omega arith
  length-remove-le k ((j, v) ∷ m) = ground (arith, length-remove-le k m)

  pub length-update_all : (f : ℕ → V → V) (m : Assoc V) → length (update_all f m) ≡ length m
  unfolding update_all
  length-update_all f [] = refl
  length-update_all f ((j, v) ∷ m) = ap suc (length-update_all f m)

  pub All-remove {κ} : (P : ℕ × V → Type κ) (k : ℕ) (m : Assoc V) → All P m → All P (remove k m)
  unfolding remove
  All-remove P k [] h = h
  All-remove P k ((j, v) ∷ m) h = ground (arith, All-remove P k m h.1)

  pub All-retain {κ} :
      (P : ℕ × V → Type κ) (p : V → Bool) (m : Assoc V) → All P m → All P (retain p m)
  unfolding retain
  All-retain P p [] h = h
  All-retain P p ((j, v) ∷ m) h = ground (arith, All-retain P p m h.1)

  pub All-get {κ} :
      (P : ℕ × V → Type κ) (k : ℕ) (m : Assoc V) (v : V) → All P m → get k m ≡ some v → P (k, v)
  unfolding get
  All-get P k [] v h e = cc
  All-get P k ((j, w) ∷ m) v h e = elim (Bool-cases (j == k)) [
    | inl hit ↦ subst P (ground arith) h.0
    | inr miss ↦ All-get P k m v h.1 (ground arith)
  ]
