-- ===== src/Prelude/Triple.antt =====
-- Triples for operations that may fail: where the state meets the precondition and the operation
-- succeeds, its value and its state meet the postcondition.
use mathlib.Core.Path.{◌≡◌, sym, subst}
use grin_wallet.Prelude.Result.{ok}
use grin_wallet.Prelude.Exec.{Exec, ◌>>=◌, exec-eq-ok}

module _ {ℓ κ} {S : Type ℓ} where
  abbrev pub Triple : {A : Type ℓ} → (S → Type κ) → Exec S A → (A → S → Type κ) → Type (ℓ ⊔ κ)
  Triple {A = A} P m Q = (s : S) → P s → (a : A) → (m s).0 ≡ ok a → Q a (m s).1

module _ {ℓ κ} {S A B : Type ℓ} (P : S → Type κ) (Q : A → S → Type κ) (R : B → S → Type κ) where
  pub Triple->>= :
      (m : Exec S A) (f : A → Exec S B)
      → Triple P m Q
      → ((a : A) → Triple (Q a) (f a) R)
      → Triple P (m >>= f) R
  Triple->>= m f hm hf s p b e =
      let (a, e1, e2, e3) = exec-eq-ok m f s e in
      subst (λ r. R b r.1) (sym e3) (hf a (m s).1 (hm s p a e1) b e2)
