-- ===== src/Updater/Refresh/Old.antt =====
-- What makes an unconfirmed coinbase old (`clean_old_unconfirmed` of
-- libwallet/src/internal/updater.rs), and the entries that a filter picks.
use grin_wallet.Prelude.{
  ℕ, ◌+◌, ◌<◌, ◌≡◌, inl, inr, Bool, true, false, List, [], ◌∷◌, any, map, filter, All, Bool-cases,
  arith,
}
use grin_wallet.Output.{OutputData, unconfirmed}
use grin_wallet.Backend.{Env}
use grin_wallet.Updater.Refresh.{is_old_unconfirmed}

module _ {ℓ} {A B : Type ℓ} (f : A → B) (p : A → Bool) (q : B → Bool) where
  pub picked_none :
      (xs : List A)
      → any q (map f (filter p xs)) ≡ false
      → All (λ x. p x ≡ true → q (f x) ≡ false) xs
  unfolding any filter
  picked_none [] e = tt
  picked_none (x ∷ xs) e = elim (Bool-cases (p x)) [
    | inl t ↦ elim (Bool-cases (q (f x))) [
      | inl s ↦ cc
      | inr s ↦ (λ u. s, picked_none xs (ground (arith, e)))
    ]
    | inr t ↦ (λ u. cc, picked_none xs (ground (arith, e)))
  ]

  pub picked_one {κ} :
      (P : A → Type κ) (xs : List A)
      → All P xs
      → any q (map f (filter p xs)) ≡ true
      → (x : A) × P x × (p x ≡ true) × (q (f x) ≡ true)
  unfolding any filter
  picked_one P [] h e = cc
  picked_one P (x ∷ xs) (h, hs) e = elim (Bool-cases (p x)) [
    | inl t ↦ elim (Bool-cases (q (f x))) [
      | inl s ↦ (x, h, t, s)
      | inr s ↦ picked_one P xs hs (ground (arith, e))
    ]
    | inr t ↦ picked_one P xs hs (ground (arith, e))
  ]

-- An unconfirmed coinbase whose block is more than 50 blocks before the height.
pub record IsOld (height : ℕ) (o : OutputData) : Type 0 where
  pub waits : o.status ≡ unconfirmed
  pub of_block : o.is_coinbase ≡ true
  pub has_height : 0 < o.height
  pub before : o.height + 50 < height

pub is_old_unconfirmed-IsOld :
    (env : Env) (height : ℕ) (o : OutputData)
    → is_old_unconfirmed env height o ≡ true
    → IsOld height o
is_old_unconfirmed-IsOld env height o e = ground arith

pub IsOld-is_old_unconfirmed :
    (env : Env) (height : ℕ) (o : OutputData)
    → IsOld height o
    → is_old_unconfirmed env height o ≡ true
IsOld-is_old_unconfirmed env height o old = ground arith
