-- ===== src/Prelude/Exec.antt =====
-- Code that changes a state and may fail: what was written before the failure stays written.
use aws_nitro_enclaves_acm.Prelude.Results.{Result, ok, err}

abbrev pub Exec {ℓ} : Type 0 → Type 0 → Type ℓ → Type ℓ
Exec S E A = S → Result E A × S

module _ {ℓ} {S E : Type 0} {A : Type ℓ} where
  abbrev pub pure : A → Exec S E A
  pure a s = (ok a, s)

  -- A pure step that may fail.
  abbrev pub lift : Result E A → Exec S E A
  lift r s = (r, s)

module _ {ℓ κ} {S E : Type 0} {A : Type ℓ} {B : Type κ} where
  abbrev pub continue : Result E A → (A → Exec S E B) → Exec S E B
  continue (ok a) f s = f a s
  continue (err e) f s = (err e, s)

  infixl 5 ◌>>=◌
  abbrev pub ◌>>=◌ : Exec S E A → (A → Exec S E B) → Exec S E B
  ◌>>=◌ m f s = continue (m s).0 f (m s).1

module _ {ℓ} {S E : Type 0} {B : Type ℓ} where
  infixl 5 ◌>>◌
  abbrev pub ◌>>◌ : Exec S E (Unit {0}) → Exec S E B → Exec S E B
  m >> k = m >>= λ _. k
