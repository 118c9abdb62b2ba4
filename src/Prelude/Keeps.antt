-- ===== src/Prelude/Keeps.antt =====
-- A relation between the state before and after that operations keep, for one that is reflexive and
-- transitive, whether they succeed or fail.
use mathlib.Core.Path.{◌≡◌, refl, sym, subst}
use mathlib.Core.Logic.{◌⊎◌, inl, inr}
use mathlib.Core.List.{List, [], ◌∷◌}
use grin_wallet.Prelude.Result.{Result, ok, err, panic, stuck}
use grin_wallet.Prelude.Exec.{Exec, continue, settle, batched, for_each, ◌>>=◌}

module _ {ℓ} {S A : Type ℓ} where
  settle-cases :
      (s : S) (r : Result A) (s' : S)
      → ((settle s r s').1 ≡ s) ⊎ ((a : A) × (r ≡ ok a) × ((settle s r s').1 ≡ s'))
  settle-cases s (ok a) s' = inr (a, refl, refl)
  settle-cases s (err e) s' = inl refl
  settle-cases s panic s' = inl refl
  settle-cases s stuck s' = inl refl

  -- A batch leaves the state as it was, or succeeds and leaves what its body does.
  pub batched-cases :
      (m : Exec S A) (s : S)
      → ((batched m s).1 ≡ s) ⊎ ((a : A) × ((m s).0 ≡ ok a) × ((batched m s).1 ≡ (m s).1))
  batched-cases m s = settle-cases s (m s).0 (m s).1

module _ {ℓ κ} {S : Type ℓ} (R : S → S → Type κ) where
  pub record IsPreorder : Type (ℓ ⊔ κ) where
    pub reflexive : (s : S) → R s s
    pub transitive : (s t u : S) → R s t → R t u → R s u

  abbrev pub Keeps : {A : Type ℓ} → Exec S A → Type (ℓ ⊔ κ)
  Keeps m = (s : S) → R s (m s).1

module _ {ℓ κ} {S : Type ℓ} (R : S → S → Type κ) (p : IsPreorder R) {A B : Type ℓ} where
  Keeps-continue :
      (s t : S) (r : Result A) (f : A → Exec S B)
      → ((a : A) → Keeps R (f a))
      → R s t
      → R s (continue r f t).1
  Keeps-continue s t (ok a) f h k = p.transitive s t _ k (h a t)
  Keeps-continue s t (err e) f h k = k
  Keeps-continue s t panic f h k = k
  Keeps-continue s t stuck f h k = k

  pub Keeps->>= :
      (m : Exec S A) (f : A → Exec S B) → Keeps R m → ((a : A) → Keeps R (f a)) → Keeps R (m >>= f)
  Keeps->>= m f k h s = Keeps-continue s (m s).1 (m s).0 f h (k s)

module _ {ℓ κ} {S : Type ℓ} (R : S → S → Type κ) (p : IsPreorder R) {A : Type ℓ} where
  pub Keeps-batched : (m : Exec S A) → Keeps R m → Keeps R (batched m)
  Keeps-batched m k s = elim (batched-cases m s) [
    | inl e ↦ subst (λ t. R s t) (sym e) (p.reflexive s)
    | inr (a, e, f) ↦ subst (λ t. R s t) (sym f) (k s)
  ]

  pub Keeps-for_each :
      (items : List A) (body : A → Exec S (Unit {ℓ}))
      → ((a : A) → Keeps R (body a))
      → Keeps R (for_each items body)
  unfolding for_each
  Keeps-for_each [] body h s = p.reflexive s
  Keeps-for_each (a ∷ items) body h s =
      Keeps->>= R p (body a) (λ _. for_each items body) (h a) (λ _. Keeps-for_each items body h) s
