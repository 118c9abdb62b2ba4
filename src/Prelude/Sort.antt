-- ===== src/Prelude/Sort.antt =====
-- The stable sort of the standard library, by a test `le a b` that `a` may stand before `b`.
use mathlib.Core.Bool.{Bool}
use mathlib.Core.List.{List, [], ◌∷◌}
use grin_wallet.Prelude.Tests.{if◌then◌else◌, Bool-cases}
use grin_wallet.Prelude.Lists.{All}
use mathlib.Core.Logic.{inl, inr}

module _ {ℓ} {A : Type ℓ} (le : A → A → Bool) where
  unfoldable pub insert_by : A → List A → List A
  insert_by a [] = a ∷ []
  insert_by a (b ∷ bs) = let rest = insert_by a bs in if le a b then a ∷ b ∷ bs else b ∷ rest

  unfoldable pub sort_by : List A → List A
  unfolding insert_by
  sort_by [] = []
  sort_by (a ∷ items) = insert_by a (sort_by items)

  module _ {κ} (P : A → Type κ) where
    All-insert_by : (a : A) (bs : List A) → P a → All P bs → All P (insert_by a bs)
    unfolding insert_by
    All-insert_by a [] p h = (p, tt)
    All-insert_by a (b ∷ bs) p (pb, h) = elim (Bool-cases (le a b)) [
      | inl e ↦ rw e (p, (pb, h))
      | inr e ↦ rw e (pb, All-insert_by a bs p h)
    ]

    pub All-sort_by : (items : List A) → All P items → All P (sort_by items)
    unfolding sort_by
    All-sort_by [] h = tt
    All-sort_by (a ∷ items) (p, h) = All-insert_by a (sort_by items) p (All-sort_by items h)
