-- ===== src/Exchange/Send.antt =====
-- The sender (`select_send_tx` and `build_send_tx` of
-- libwallet/src/internal/selection.rs, `add_inputs_to_slate` of libwallet/src/internal/tx.rs).
pub mod Ids
pub mod Spends
use grin_wallet.Prelude.{
  ℕ, Bool, true, false, not, Option, none, some, List, [], ◌∷◌, ◌-◌, leb, ◌==◌, if◌then◌else◌,
}
use grin_wallet.Prelude.Result.{Result, ok, err, panic, stuck, fee_error, generic_error}
use grin_wallet.Prelude.Exec.{pure, lift, raise, ◌>>=◌, ◌>>◌}
use grin_wallet.Output.{OutputData}
use grin_wallet.Context.{Context, add_input, add_output}
use grin_wallet.Libtx.{Libtx}
use grin_wallet.Slates.{Slate, add_transaction_elements, fill_round_1}
use grin_wallet.Slates.Signing.{fill_round_2}
use grin_wallet.Selection.{Request}
use grin_wallet.Selection.Fee.{select_coins_and_fee}
use grin_wallet.Selection.Change.{Part, ChangeOutput, inputs_and_change}
use grin_wallet.Backend.{Env, Op, iter, calc_commit_for_cache}
use grin_wallet.Updater.Refresh.{NodeClient, refresh_outputs}
use grin_wallet.Exchange.{Host, new_context}

module _ (env : Env) (lib : Libtx) (host : Host lib) where
  unfoldable pub select_send_tx :
      Request → Bool → Op env (List Part × List OutputData × List ChangeOutput × ℕ)
  unfolding select_coins_and_fee inputs_and_change
  select_send_tx r include_inputs_in_sum w =
      (do
        selected ← lift (select_coins_and_fee env.core (iter env w) r)
        built ←
            inputs_and_change env selected.0 selected.2 selected.3 r.change_outputs
              include_inputs_in_sum
        pure (built.0, selected.0, built.1, selected.3))
        w

  -- `slate.amount.checked_sub(fee)`, where the amount includes the fee
  abbrev pub less_fee : Bool → ℕ → ℕ → Result ℕ
  less_fee true amount fee = if leb fee amount then ok (amount - fee) else err generic_error
  less_fee false amount fee = ok amount

  abbrev is_other_fee : ℕ → Option ℕ → Bool
  is_other_fee fee none = false
  is_other_fee fee (some f) = not (fee == f)

  -- `unwrap`
  abbrev pub expect : {A : Type 0} → Result A → Result A
  expect (ok a) = ok a
  expect (err e) = panic
  expect panic = panic
  expect stuck = stuck

  unfoldable pub add_inputs : List OutputData → Context → Context
  unfolding add_input
  add_inputs [] c = c
  add_inputs (i ∷ is) c = add_inputs is (add_input c i.key_id i.mmr_index i.value)

  -- The commitments that the loop asks for are dropped in the end.
  unfoldable pub add_outputs : List ChangeOutput → Context → Op env Context
  unfolding add_output
  add_outputs [] c = pure c
  add_outputs (o ∷ os) c = do
    commit ← calc_commit_for_cache env o.amount o.id
    add_outputs os (add_output c o.id o.mmr_index o.amount)

  unfoldable pub build_send_tx : Slate lib → Request → Option ℕ → Op env (Slate lib × Context)
  unfolding select_send_tx add_inputs add_outputs
  build_send_tx s r fixed_fee = do
    selected ← select_send_tx (record r { amount = s.amount }) false
    amount ← lift (less_fee r.amount_includes_fee s.amount selected.3)
    if is_other_fee selected.3 fixed_fee then raise fee_error else (do
      fee_fields ← lift (expect (host.try_fee selected.3))
      built ← lift (
          add_transaction_elements lib (record s { amount = amount; fee_fields = fee_fields })
            selected.0)
      let context = record (new_context env lib host r.parent_key_id) {
        fee = some (host.fee_code fee_fields);
        amount = amount;
      }
      context' ← add_outputs selected.2 (add_inputs selected.1 context)
      pure (built.0, context'))

  unfoldable pub add_inputs_to_slate :
      NodeClient → Slate lib → Request → Bool → Bool → Op env (Slate lib × Context)
  unfolding refresh_outputs build_send_tx
  add_inputs_to_slate node s r refresh is_initiator = do
    if refresh then refresh_outputs env node r.parent_key_id false else pure tt
    lift env.unlocked
    built ← build_send_tx s r none
    lift env.unlocked
    filled ← lift (fill_round_1 lib built.0 built.1)
    let context = record (built.1) { initial_sec_key = built.1.sec_key }
    if is_initiator then pure (filled, context) else (do
      lift env.unlocked
      signed ← lift (fill_round_2 lib filled context.sec_key context.sec_nonce)
      pure (signed, context))
