-- ===== src/Selection/Fee.antt =====
-- The fee of a transaction and the coins that cover it (`select_coins_and_fee` and
-- `max_spendable_amount` of libwallet/src/internal/selection.rs).
pub mod Loop
pub mod Sound
use grin_wallet.Prelude.{
  ℕ, zero, suc, ◌+◌, ◌-◌, Bool, List, [], ◌∷◌, ◌&&◌, ltb, leb, ◌==◌, if◌then◌else◌, length, add64,
}
use grin_wallet.Prelude.Result.{
  Result, ok, err, stuck, ◌>>=◌, not_enough_funds, big_amount_error, generic_error,
}
use grin_wallet.Core.{Core}
use grin_wallet.Output.{OutputData}
use grin_wallet.Selection.{Request, total_of, select_coins}

unfoldable pub amount_with_fee : Request → ℕ → ℕ
amount_with_fee r fee = if r.amount_includes_fee then r.amount else add64 r.amount fee

-- `take_while` of `max_spendable_amount`: the values whose weight still fits, from `index` on.
pub fitting_values : Core → ℕ → ℕ → List OutputData → List ℕ
fitting_values core output_len index [] = []
fitting_values core output_len index (o ∷ os) =
    let rest = fitting_values core output_len (index + 1) os in
    if leb (core.weight_by_iok (index + 1) output_len 1) core.max_tx_weight
    then o.value ∷ rest
    else []

insert_decreasing : ℕ → List ℕ → List ℕ
insert_decreasing v [] = v ∷ []
insert_decreasing v (w ∷ ws) =
    let rest = insert_decreasing v ws in if leb w v then v ∷ w ∷ ws else w ∷ rest

-- `sort_by(|a, b| b.cmp(a))`
pub sort_decreasing : List ℕ → List ℕ
unfolding insert_decreasing
sort_decreasing [] = []
sort_decreasing (v ∷ vs) = insert_decreasing v (sort_decreasing vs)

-- The loop over the sorted values: index, total value, amount and inputs.
pub best_amount : Core → List ℕ → ℕ → ℕ → ℕ → ℕ → ℕ × ℕ
best_amount core [] index total_value amount inputs = (amount, inputs)
best_amount core (value ∷ values) index total_value amount inputs =
    let total' : ℕ = add64 total_value value in
    let pays : Bool = ltb (core.tx_fee (index + 1) 1 1) total' in
    best_amount core values (index + 1) total' (if pays then total' else amount)
      (if pays then index + 1 else inputs)

-- `saturating_sub` is the subtraction of ℕ.
pub max_spendable_amount : Core → List OutputData → ℕ → Bool → ℕ × ℕ
unfolding fitting_values sort_decreasing best_amount
max_spendable_amount core outputs output_len amount_includes_fee =
    let (amount, inputs) =
      best_amount core (sort_decreasing (fitting_values core output_len 0 outputs)) 0 0 0 0 in
    (if amount_includes_fee then amount else amount - core.tx_fee inputs 1 1, inputs)

-- What the loop of `select_coins_and_fee` works on.
pub record Picked : Type 0 where
  pub coins : List OutputData
  pub total : ℕ
  pub fee : ℕ
  pub needed : ℕ

module _ (core : Core) (outputs : List OutputData) (r : Request) where
  -- The coins with the fee for `num_outputs` outputs.
  unfoldable pub with_fee : List OutputData → ℕ → Picked
  with_fee coins num_outputs =
      let fee : ℕ = core.tx_fee (length coins) num_outputs 1 in
      record { coins = coins; total = total_of coins; fee = fee; needed = amount_with_fee r fee }

  -- `while total < amount_with_fee`; `max_outputs` was rebound to the number of eligible outputs.
  unfoldable pub raise_loop : ℕ → ℕ → Picked → Result Picked
  raise_loop zero max_available p = stuck
  raise_loop (suc fuel) max_available p =
      let next = do
        (_, coins) ← select_coins outputs r p.needed max_available
        raise_loop fuel max_available (with_fee coins (r.change_outputs + 1))
      in if leb p.needed p.total
        then ok p
        else if length p.coins == max_available
        then err (not_enough_funds p.total p.needed)
        else next

  -- The weight check and the amount that is left for the recipient:
  -- coins, total, amount and fee.
  unfoldable pub check_weight : Picked → Result (List OutputData × ℕ × ℕ × ℕ)
  check_weight p =
      let output_len : ℕ = if p.total == p.needed then 1 else r.change_outputs + 1 in
      if ltb core.max_tx_weight (core.weight_by_iok (length p.coins) output_len 1)
      then (let (max_amount, max_inputs) =
            max_spendable_amount core p.coins output_len r.amount_includes_fee in
          err (big_amount_error max_amount (core.tx_fee max_inputs 1 1) max_inputs))
      else if r.amount_includes_fee
      then (if leb p.fee r.amount
          then ok (p.coins, p.total, r.amount - p.fee, p.fee)
          else err generic_error)
      else ok (p.coins, p.total, r.amount, p.fee)

  unfoldable pub first_attempt : ℕ → Picked → Result Picked
  first_attempt max_available p =
      if p.total == 0
      then err (not_enough_funds 0 p.needed)
      else if ltb p.total p.needed && (length p.coins == max_available)
      then err (not_enough_funds p.total p.needed)
      else if p.total == p.needed
      then ok p
      else raise_loop (max_available + 2) max_available (with_fee p.coins (r.change_outputs + 1))

  unfoldable pub select_coins_and_fee : Result (List OutputData × ℕ × ℕ × ℕ)
  select_coins_and_fee = do
    (max_available, coins) ← select_coins outputs r r.amount r.max_outputs
    p ← first_attempt max_available (with_fee coins 1)
    check_weight p
