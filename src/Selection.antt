-- ===== src/Selection.antt =====
-- Selection of the inputs of a transaction, its fee and its change
-- (libwallet/src/internal/selection.rs). The wallet's outputs are a list, as `wallet.iter()` gives.
pub mod Cover
pub mod Fee
pub mod Worth
pub mod Candidates
pub mod Change
use mathlib.Core.List.{reverse}
use grin_wallet.Prelude.{
  ℕ, Bool, true, false, Option, none, some, List, [], ◌∷◌, ◌&&◌, ltb, leb, ◌==◌, if◌then◌else◌,
  length, take, filter, add64,
}
use grin_wallet.Prelude.Result.{Result, ok, panic, ◌>>=◌}
use grin_wallet.Output.{OutputData, eligible_to_spend}

-- `iter().map(|c| c.value).sum()` and `fold(0, |acc, x| acc + x.value)`
unfoldable pub sum_from : ℕ → List OutputData → ℕ
sum_from acc [] = acc
sum_from acc (o ∷ os) = sum_from (add64 acc o.value) os

abbrev pub total_of : List OutputData → ℕ
total_of = sum_from 0

-- `take_while` with the running `selected_amount`
unfoldable pub take_amount : ℕ → ℕ → List OutputData → List OutputData
take_amount amount selected_amount [] = []
take_amount amount selected_amount (out ∷ outputs) =
    let rest = take_amount amount (add64 selected_amount out.value) outputs in
    if ltb selected_amount amount then out ∷ rest else []

unfoldable pub select_from : ℕ → Bool → List OutputData → Option (List OutputData)
unfolding take_amount sum_from
select_from amount select_all outputs =
    if leb amount (total_of outputs)
    then some (if select_all then outputs else take_amount amount 0 outputs)
    else none

unfoldable pub eligible_outputs : List OutputData → ℕ → ℕ → ℕ → List OutputData
eligible_outputs outputs current_height minimum_confirmations parent_key_id =
    filter
      (λ output.
        output.root_key_id == parent_key_id
        && eligible_to_spend output current_height minimum_confirmations)
      outputs

unfoldable pub insert_by_value : OutputData → List OutputData → List OutputData
insert_by_value out [] = out ∷ []
insert_by_value out (o ∷ os) =
    let rest = insert_by_value out os in if leb out.value o.value then out ∷ o ∷ os else o ∷ rest

-- `sort_by_key(|out| out.value)`, which keeps the order of equal values
unfoldable pub sort_by_value : List OutputData → List OutputData
unfolding insert_by_value
sort_by_value [] = []
sort_by_value (o ∷ os) = insert_by_value o (sort_by_value os)

-- The loop over `eligible.windows(max_outputs)`, from the window that starts at the head.
unfoldable pub first_window : ℕ → Bool → ℕ → List OutputData → Option (List OutputData)
first_window amount select_all max_outputs [] = none
first_window amount select_all max_outputs (o ∷ os) =
    let later = first_window amount select_all max_outputs os in
    if ltb (length (o ∷ os)) max_outputs
    then none
    else elim (select_from amount select_all (take max_outputs (o ∷ os))) [
      | some outputs ↦ some outputs
      | none ↦ later
    ]

-- The largest outputs, the guidance on what is possible.
abbrev pub largest : ℕ → List OutputData → List OutputData
largest max_outputs eligible = take max_outputs (reverse eligible)

abbrev or_largest : Option (List OutputData) → ℕ → List OutputData → List OutputData
or_largest (some outputs) max_outputs eligible = outputs
or_largest none max_outputs eligible = largest max_outputs eligible

abbrev or_extended : Option (List OutputData) → ℕ → ℕ → List OutputData → List OutputData
or_extended (some outputs) amount max_outputs eligible = outputs
or_extended none amount max_outputs eligible =
    or_largest (select_from amount false eligible) max_outputs eligible

-- `select_coins` from the sorted eligible outputs on; `windows(0)` panics.
unfoldable pub select_sorted : ℕ → ℕ → Bool → List OutputData → Result (List OutputData)
unfolding first_window select_from
select_sorted amount max_outputs select_all eligible =
    if ltb max_outputs (length eligible)
    then if max_outputs == 0
      then panic
      else ok (
          or_extended (first_window amount select_all max_outputs eligible) amount max_outputs
            eligible)
    else ok (or_largest (select_from amount select_all eligible) max_outputs eligible)

-- What the caller asks of the selection.
pub record Request : Type 0 where
  pub amount : ℕ
  pub amount_includes_fee : Bool
  pub current_height : ℕ
  pub minimum_confirmations : ℕ
  pub max_outputs : ℕ
  pub change_outputs : ℕ
  pub select_all : Bool
  pub parent_key_id : ℕ

abbrev pub candidates : List OutputData → Request → List OutputData
candidates outputs r =
    sort_by_value
      (eligible_outputs outputs r.current_height r.minimum_confirmations r.parent_key_id)

unfoldable pub select_coins : List OutputData → Request → ℕ → ℕ → Result (ℕ × List OutputData)
unfolding select_sorted eligible_outputs sort_by_value
select_coins outputs r amount max_outputs = do
  coins ← select_sorted amount max_outputs r.select_all (candidates outputs r)
  ok (length (candidates outputs r), coins)
