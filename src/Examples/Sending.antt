-- ===== src/Examples/Sending.antt =====
-- The theorems on the sending side at a concrete wallet, slate and context.
use grin_wallet.Prelude.{
  map, sub64, filter, any, true, false, arith, ℕ, ◌≡◌, refl, ◌⊎◌, none, some, List, [], ◌∷◌, add64,
}
use grin_wallet.Prelude.Result.{ok}
use grin_wallet.Bytes.{be_bytes, bytes_eq}
use grin_wallet.Store.Assoc.{lookup, values}
use grin_wallet.Output.{lock, eligible_to_spend}
use grin_wallet.TxLog.{new_tx_log_entry}
use grin_wallet.Context.{Context, with_excess, add_input, add_output}
use grin_wallet.Slate.{plain}
use grin_wallet.Libtx.{plain as plain_kernel}
use grin_wallet.Slates.{
  Slate, calc_excess, add_transaction_elements, update_kernel, kernel_features,
}
use grin_wallet.Exchange.{new_context}
use grin_wallet.Exchange.Send.Spends.{Spends, build_send_tx-Spends}
use grin_wallet.Selection.{
  select_coins, select_sorted, first_window, select_from, take_amount, sum_from, sort_by_value,
  insert_by_value, eligible_outputs,
}
use grin_wallet.Selection.Fee.{
  select_coins_and_fee, with_fee, raise_loop, check_weight, first_attempt, amount_with_fee,
}
use grin_wallet.Selection.Fee.Sound.{Fits}
use grin_wallet.Selection.Change.{inputs_and_change, build_change, split_change, change_outputs}
use grin_wallet.Backend.{
  iter, next_child, save_child_index, current_child_index, get_output, lock_output, save,
  save_tx_log_entry, next_tx_log_id, output_key, to_key_u64,
}
use grin_wallet.Exchange.Lock.{
  ChangeCommit, output_commits, lock_tx_context, lock_inputs, save_changes, lock_batch, lock_under,
  lock_with, commit_at,
}
use grin_wallet.Exchange.Lock.Commits.{asked_for}
use grin_wallet.Exchange.Lock.Whole.{Done, lock_tx_context_all_or_nothing}
use grin_wallet.Examples.{env, wallet, request}
use grin_wallet.Examples.Toy.{toy, no_tx, ToyTx}
use grin_wallet.Exchange.Send.{build_send_tx, select_send_tx, add_inputs, add_outputs}
use grin_wallet.Examples.Exchanges.{sent}
use grin_wallet.Examples.Receiving.{host}
use grin_wallet.Examples.Wallets.{wallet-Keyed}
use grin_wallet.Examples.Backends.{context}

-- The output 11, of 40, is spent for 20 and a fee of 1, with 19 of change.
abbrev pub spending : Context
spending = record context {
  parent_key_id = 1;
  input_ids = (11, none, 40) ∷ [];
  output_ids = (14, none, 19) ∷ [];
  fee = some 1;
}

locked : (lock_tx_context env toy host sent 20 spending none wallet).0 ≡ ok tt
unfolding lock_tx_context lock_with lock_batch lock_under lock_inputs save_changes commit_at
    output_commits get_output lock_output save save_tx_log_entry next_tx_log_id new_tx_log_entry
    lookup to_key_u64 be_bytes bytes_eq output_key add64 lock calc_excess
locked = refl

lock_tx_context_all_or_nothing_example :
    ((lock_tx_context env toy host sent 20 spending none wallet).1 ≡ wallet)
    ⊎ ((commits : List ChangeCommit) × ((output_commits env toy host spending.output_ids wallet).0
          ≡ ok commits)
        × (map asked_for commits ≡ map (λ i. (i.0, i.2)) spending.output_ids)
        × ((log_id : ℕ) × Done env toy host sent 20 spending none wallet log_id commits
              (lock_tx_context env toy host sent 20 spending none wallet).1))
lock_tx_context_all_or_nothing_example =
    lock_tx_context_all_or_nothing env toy host sent 20 spending none wallet wallet-Keyed

abbrev pub empty_slate : Slate toy
empty_slate = record sent { tx = some no_tx; participant_data = [] }

abbrev built_tx : ToyTx
built_tx = record no_tx {
  outs = record { features = plain; commit = true; proof = true } ∷ [];
  kers = record { features = plain_kernel true; excess = false; excess_sig = false } ∷ [];
}

abbrev built_slate : Slate toy
built_slate = record empty_slate { tx = some built_tx; fee_fields = true }

abbrev built_context : Context
built_context = record (new_context env toy host 1) {
  output_ids = (100, none, 11) ∷ [];
  input_ids = (11, none, 40) ∷ [];
  amount = 20;
  fee = some 1;
}

built :
    (build_send_tx env toy host empty_slate request none wallet).0 ≡ ok (built_slate, built_context)
unfolding build_send_tx select_send_tx select_coins_and_fee with_fee raise_loop check_weight
    first_attempt select_coins select_sorted first_window select_from take_amount sum_from
    sort_by_value insert_by_value eligible_outputs eligible_to_spend amount_with_fee filter
    inputs_and_change build_change split_change change_outputs next_child save_child_index
    current_child_index add_inputs add_outputs add_input add_output with_excess
    add_transaction_elements update_kernel kernel_features values any lookup be_bytes bytes_eq
    output_key to_key_u64 add64 sub64
built = refl

all_fits : Fits env.core (iter env wallet) (record request { amount = empty_slate.amount })
unfolding values any output_key be_bytes bytes_eq
all_fits = record { wallet = omega arith; asked = λ sel a m n e h. omega arith }

build_send_tx-Spends_example :
    Spends env toy host request empty_slate built_slate none built_context
build_send_tx-Spends_example =
    build_send_tx-Spends env toy host empty_slate built_slate request none wallet built_context
      all_fits built
