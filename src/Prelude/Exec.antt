-- ===== src/Prelude/Exec.antt =====
-- Operations that change a state and may fail. What was written before a failure stays written,
-- unless it stands in a batch.
use mathlib.Core.Path.{◌≡◌, refl}
use mathlib.Core.List.{List, [], ◌∷◌}
use grin_wallet.Prelude.Result.{Error, Result, ok, err, panic, stuck}

abbrev pub Exec {ℓ} : Type ℓ → Type ℓ → Type ℓ
Exec S A = S → Result A × S

module _ {ℓ} {S A : Type ℓ} where
  abbrev pub pure : A → Exec S A
  pure a s = (ok a, s)

  abbrev pub raise : Error → Exec S A
  raise e s = (err e, s)

  abbrev pub lift : Result A → Exec S A
  lift r s = (r, s)

  abbrev pub gets : (S → A) → Exec S A
  gets f s = (ok (f s), s)

  abbrev pub settle : S → Result A → S → Result A × S
  settle s (ok a) s' = (ok a, s')
  settle s (err e) s' = (err e, s)
  settle s panic s' = (panic, s)
  settle s stuck s' = (stuck, s)

  -- A batch that is committed at its end: a failure inside discards all of its writes.
  abbrev pub batched : Exec S A → Exec S A
  batched m s = settle s (m s).0 (m s).1

module _ {ℓ} {S A B : Type ℓ} where
  abbrev pub continue : Result A → (A → Exec S B) → Exec S B
  continue (ok a) f s = f a s
  continue (err e) f s = (err e, s)
  continue panic f s = (panic, s)
  continue stuck f s = (stuck, s)

  infixl 5 ◌>>=◌ ◌>>◌
  abbrev pub ◌>>=◌ : Exec S A → (A → Exec S B) → Exec S B
  ◌>>=◌ m f s = continue (m s).0 f (m s).1

  abbrev pub ◌>>◌ : Exec S A → Exec S B → Exec S B
  m >> n = m >>= λ _. n

module _ {ℓ} {S A B : Type ℓ} where
  continue-ok :
      (r : Result A) (f : A → Exec S B) (s : S) {b : B}
      → (continue r f s).0 ≡ ok b
      → (a : A) × (r ≡ ok a) × ((f a s).0 ≡ ok b) × (continue r f s ≡ f a s)
  continue-ok (ok a) f s e = (a, refl, e, refl)
  continue-ok (err x) f s e = cc
  continue-ok panic f s e = cc
  continue-ok stuck f s e = cc

  -- A chain that succeeds has a first step that does.
  pub exec-eq-ok :
      (m : Exec S A) (f : A → Exec S B) (s : S) {b : B}
      → ((m >>= f) s).0 ≡ ok b
      → (a : A) × ((m s).0 ≡ ok a) × ((f a (m s).1).0 ≡ ok b) × ((m >>= f) s ≡ f a (m s).1)
  exec-eq-ok m f s e = continue-ok (m s).0 f (m s).1 e

module _ {ℓ} {S A : Type ℓ} where
  -- `for a in items { body }`
  unfoldable pub for_each : List A → (A → Exec S (Unit {ℓ})) → Exec S (Unit {ℓ})
  for_each [] body = pure tt
  for_each (a ∷ items) body = body a >>= λ _. for_each items body
