-- ===== src/Selection/Change.antt =====
-- Inputs and change outputs of a transaction (`inputs_and_change` of
-- libwallet/src/internal/selection.rs). A division by zero is a panic.
pub mod Balance
pub mod Keys
use grin_wallet.Prelude.{
  ℕ, zero, suc, ◌+◌, ◌-◌, ◌/◌, ◌%◌, Bool, Option, none, List, [], ◌∷◌, ◌++◌, map, ◌==◌,
  if◌then◌else◌, add64, sub64,
}
use grin_wallet.Prelude.Result.{Result, ok, panic}
use grin_wallet.Prelude.Exec.{Exec, pure, lift, ◌>>=◌}
use grin_wallet.Output.{OutputData}
use grin_wallet.Backend.{Env, Op, next_child}
use grin_wallet.Selection.{total_of}

-- The elements that the transaction builder is given (the constructors of `build::`).
pub data Part : Type 0 where
  coinbase_input input output : ℕ → ℕ → Part

-- `(u64, Identifier, Option<u64>)`
pub record ChangeOutput : Type 0 where
  pub amount : ℕ
  pub id : ℕ
  pub mmr_index : Option ℕ

abbrev pub new_change : ℕ → ℕ → ChangeOutput
new_change amount id = record { amount = amount; id = id; mmr_index = none }

abbrev input_of : OutputData → Part
input_of coin =
    if coin.is_coinbase then coinbase_input coin.value coin.key_id else input coin.value coin.key_id

abbrev output_of : ChangeOutput → Part
output_of c = output c.amount c.id

-- The amounts of one of the equal change outputs, and of what the last one has beside it: two
-- divisions, each of them a panic where it is by zero.
unfoldable pub split_change : ℕ → ℕ → Result (ℕ × ℕ)
split_change change num_change_outputs =
    if num_change_outputs == 0
    then panic
    else let part_change : ℕ = change / num_change_outputs in
      if part_change == 0 then panic else ok (part_change, change % part_change)

abbrev pub change_of : List OutputData → ℕ → ℕ → ℕ
change_of coins amount fee = sub64 (sub64 (total_of coins) amount) fee

module _ (env : Env) where
  -- The loop over the change outputs, with `left` of them to come; `x == num_change_outputs - 1` is
  -- that the last one is at hand.
  unfoldable pub change_outputs : ℕ → ℕ → ℕ → Op env (List ChangeOutput)
  change_outputs part_change remainder_change zero = pure []
  change_outputs part_change remainder_change (suc left) = do
    change_key ← next_child env
    rest ← change_outputs part_change remainder_change left
    pure (
        new_change (if left == 0 then add64 part_change remainder_change else part_change)
          change_key
        ∷ rest)

  unfoldable pub build_change : ℕ → ℕ → Op env (List ChangeOutput)
  unfolding split_change change_outputs
  build_change change num_change_outputs = if change == 0 then pure [] else do
    split ← lift (split_change change num_change_outputs)
    change_outputs split.0 split.1 num_change_outputs

  unfoldable pub inputs_and_change :
      List OutputData → ℕ → ℕ → ℕ → Bool → Op env (List Part × List ChangeOutput)
  unfolding build_change
  inputs_and_change coins amount fee num_change_outputs include_inputs_in_sum = do
    change_amounts_derivations ← build_change (change_of coins amount fee) num_change_outputs
    pure (
      (if include_inputs_in_sum then map input_of coins else [])
          ++ map output_of change_amounts_derivations,
      change_amounts_derivations,
    )
