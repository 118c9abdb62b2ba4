-- ===== src/Selection/Cover.antt =====
-- The selected coins cover the amount (`select_coins` and `select_from` of
-- libwallet/src/internal/selection.rs).
use grin_wallet.Prelude.{
  ℕ, zero, suc, ◌+◌, ◌≤◌, ◌<◌, ◌≡◌, refl, inl, inr, Bool, false, Option, none, some, List, [], ◌∷◌,
  ltb, length, take, add64, add64_exact, u64_mod, Bool-cases, Option-cases, arith,
}
use grin_wallet.Prelude.Result.{ok}
use grin_wallet.Output.{OutputData}
use grin_wallet.Selection.{
  total_of, sum_from, take_amount, select_from, first_window, or_extended, select_sorted,
}

-- The value of some outputs, as a number without bound.
abbrev pub worth : List OutputData → ℕ
worth [] = 0
worth (o ∷ os) = o.value + worth os

pub sum_from_lem :
    (acc : ℕ) (os : List OutputData) → acc + worth os < u64_mod → sum_from acc os ≡ acc + worth os
unfolding sum_from
sum_from_lem acc [] h = omega arith
sum_from_lem acc (o ∷ os) h = omega (
  arith,
  add64_exact acc o.value (omega arith),
  (sum_from_lem (add64 acc o.value) os (omega (arith, add64_exact acc o.value (omega arith)))),
)

pub total_of_lem : (os : List OutputData) → worth os < u64_mod → total_of os ≡ worth os
total_of_lem os h = omega (arith, sum_from_lem 0 os)

pub worth-take-le : (n : ℕ) (os : List OutputData) → worth (take n os) ≤ worth os
worth-take-le zero os = omega arith
worth-take-le (suc n) [] = omega arith
worth-take-le (suc n) (o ∷ os) = omega (arith, worth-take-le n os)

pub worth-take_mono :
    (m n : ℕ) (os : List OutputData) → m ≤ n → worth (take m os) ≤ worth (take n os)
worth-take_mono zero n os h = omega arith
worth-take_mono (suc m) zero os h = absurd (omega arith)
worth-take_mono (suc m) (suc n) [] h = omega arith
worth-take_mono (suc m) (suc n) (o ∷ os) h = omega (arith, worth-take_mono m n os (omega arith))

pub take_amount_covers :
    (amount acc : ℕ) (os : List OutputData)
    → acc + worth os < u64_mod
    → amount ≤ acc + worth os
    → amount ≤ acc + worth (take_amount amount acc os)
unfolding take_amount
take_amount_covers amount acc [] h k = k
take_amount_covers amount acc (o ∷ os) h k =
    ground (arith, add64_exact acc o.value, take_amount_covers amount (add64 acc o.value) os)

-- The chosen coins are a front part of the list.
pub take_amount-eq-take :
    (amount acc : ℕ) (os : List OutputData)
    → take_amount amount acc os ≡ take (length (take_amount amount acc os)) os
unfolding take_amount
take_amount-eq-take amount acc [] = refl
take_amount-eq-take amount acc (o ∷ os) =
    ground (arith, take_amount-eq-take amount (add64 acc o.value) os)

-- Fewer coins than the chosen ones stay below the amount.
pub take_amount_minimal :
    (amount acc : ℕ) (os : List OutputData) (j : ℕ)
    → acc + worth os < u64_mod
    → j < length (take_amount amount acc os)
    → acc + worth (take j os) < amount
unfolding take_amount
take_amount_minimal amount acc [] j h k = absurd (omega arith)
take_amount_minimal amount acc (o ∷ os) zero h k = ground arith
take_amount_minimal amount acc (o ∷ os) (suc j) h k =
    ground (arith, add64_exact acc o.value, take_amount_minimal amount (add64 acc o.value) os j)

pub select_from_covers :
    (amount : ℕ) (all : Bool) (os sel : List OutputData)
    → worth os < u64_mod
    → select_from amount all os ≡ some sel
    → amount ≤ worth sel
unfolding select_from
select_from_covers amount all os sel h e =
    ground (arith, sum_from_lem 0 os, take_amount_covers amount 0 os)

pub select_from_fails :
    (amount : ℕ) (all : Bool) (os : List OutputData)
    → worth os < u64_mod
    → select_from amount all os ≡ none
    → worth os < amount
unfolding select_from
select_from_fails amount all os h e = ground (arith, sum_from_lem 0 os)

first_window_covers :
    (amount : ℕ) (all : Bool) (n : ℕ) (os sel : List OutputData)
    → worth os < u64_mod
    → first_window amount all n os ≡ some sel
    → amount ≤ worth sel
unfolding first_window
first_window_covers amount all n [] sel h e = cc
first_window_covers amount all n (o ∷ os) sel h e = ground (
  arith,
  worth-take-le n (o ∷ os),
  select_from_covers amount all (take n (o ∷ os)) sel,
  first_window_covers amount all n os sel,
)

extended_covers :
    (w : Option (List OutputData)) (amount max_outputs : ℕ) (os : List OutputData)
    → worth os < u64_mod
    → amount ≤ worth os
    → ((sel : List OutputData) → w ≡ some sel → amount ≤ worth sel)
    → amount ≤ worth (or_extended w amount max_outputs os)
extended_covers (some sel) amount max_outputs os h k covers = covers sel refl
extended_covers none amount max_outputs os h k covers =
    elim (Option-cases (select_from amount false os)) [
      | inl e ↦ absurd (omega (arith, select_from_fails amount false os h e))
      | inr (sel, e) ↦ rw e (select_from_covers amount false os sel h e)
    ]

-- Where the eligible coins together are worth the amount, the selection finds coins that are, also
-- where it has to pass the soft limit on their number. The conditions are that this limit is
-- positive and that the worth of all eligible coins is below 2 ^ 64.
pub select_sorted_covers :
    (amount max_outputs : ℕ) (all : Bool) (os : List OutputData)
    → 0 < max_outputs
    → worth os < u64_mod
    → amount ≤ worth os
    → (sel : List OutputData) × (select_sorted amount max_outputs all os ≡ ok sel)
      × (amount ≤ worth sel)
unfolding select_sorted
select_sorted_covers amount max_outputs all os pos h k =
    elim (Bool-cases (ltb max_outputs (length os))) [
      | inl more ↦ (
        or_extended (first_window amount all max_outputs os) amount max_outputs os,
        rw more (ground arith),
        extended_covers _ amount max_outputs os h k
            (λ sel. first_window_covers amount all max_outputs os sel h),
      )
      | inr few ↦ elim (Option-cases (select_from amount all os)) [
        | inl e ↦ absurd (omega (arith, select_from_fails amount all os h e))
        | inr (sel, e) ↦ (sel, rw few (rw e refl), select_from_covers amount all os sel h e)
      ]
    ]
