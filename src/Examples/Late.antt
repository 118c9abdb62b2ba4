-- ===== src/Examples/Late.antt =====
-- The theorem on late locks at a concrete wallet and request.
use grin_wallet.Prelude.{
  ℕ, ◌+◌, ◌≡◌, refl, true, false, none, some, List, [], ◌∷◌, filter, any, add64, arith,
}
use grin_wallet.Prelude.Result.{ok}
use grin_wallet.Bytes.{be_bytes, bytes_eq}
use grin_wallet.Store.Assoc.{values}
use grin_wallet.Output.{OutputData, eligible_to_spend}
use grin_wallet.Context.{Context, with_excess}
use grin_wallet.Slates.{Slate, add_participant_info, kept_sig}
use grin_wallet.Selection.{
  select_coins, select_sorted, first_window, select_from, take_amount, sum_from, sort_by_value,
  insert_by_value, eligible_outputs,
}
use grin_wallet.Selection.Fee.{
  select_coins_and_fee, with_fee, raise_loop, check_weight, first_attempt, amount_with_fee,
}
use grin_wallet.Selection.Fee.Sound.{Fits, IsSelection}
use grin_wallet.Backend.{iter, output_key}
use grin_wallet.Updater.Refresh.{NodeClient}
use grin_wallet.Exchange.Init.{InitTxArgs, create_late_lock_context, late_args}
use grin_wallet.Exchange.Init.LateLock.{
  refreshed, late_selection, create_late_lock_context_whole_amount,
}
use grin_wallet.Exchange.{new_context}
use grin_wallet.Examples.{env, wallet}
use grin_wallet.Examples.Toy.{toy}
use grin_wallet.Examples.Receiving.{host}
use grin_wallet.Examples.Sending.{empty_slate}

abbrev node : NodeClient
node = record {
  get_chain_tip = ok 90;
  get_outputs_from_node = λ cs. ok (λ c. none);
  get_kernel = λ e h. ok false;
}

abbrev args : InitTxArgs toy
args = record {
  src_acct_name = none;
  amount = 20;
  amount_includes_fee = some true;
  minimum_confirmations = 10;
  max_outputs = 2;
  num_change_outputs = 1;
  selection_strategy_is_use_all = false;
  target_slate_version = none;
  ttl_blocks = none;
  payment_proof_recipient_address = none;
  estimate_only = none;
  late_lock = some true;
  refresh_outputs_from_node = false;
}

abbrev late_slate : Slate toy
late_slate = record empty_slate {
  fee_fields = true;
  participant_data =
      record { public_blind_excess = false; public_nonce = false; part_sig = none } ∷ [];
}

abbrev late_context : Context
late_context = record (new_context env toy host 1) {
  fee = some 1;
  amount = 20;
  late_lock_args = some (late_args env toy host args);
}

made :
    (create_late_lock_context env toy host node empty_slate 20 args 1 wallet).0
    ≡ ok (late_slate, late_context)
unfolding create_late_lock_context select_coins_and_fee with_fee raise_loop check_weight
    first_attempt select_coins select_sorted first_window select_from take_amount sum_from
    sort_by_value insert_by_value eligible_outputs eligible_to_spend amount_with_fee filter
    add_participant_info kept_sig with_excess values any be_bytes bytes_eq output_key add64
made = refl

late_fits :
    Fits env.core
      (iter env (refreshed env toy host node args 1 wallet))
      (late_selection env toy host args 20 1)
unfolding values any output_key be_bytes bytes_eq
late_fits = record { wallet = omega arith; asked = λ sel a m n e h. omega arith }

create_late_lock_context_whole_amount_example :
    (coins : List OutputData) × (total amount fee : ℕ) × IsSelection env.core
      (iter env (refreshed env toy host node args 1 wallet))
      (late_selection env toy host args 20 1)
      coins
      total
      amount
      fee
    × (amount + fee ≡ 20)
    × (late_slate.amount ≡ 20)
    × (late_context.amount ≡ 20)
    × (host.new_fee 0 fee ≡ ok late_slate.fee_fields)
    × (late_context.fee ≡ some (host.fee_code late_slate.fee_fields))
create_late_lock_context_whole_amount_example =
    create_late_lock_context_whole_amount env toy host node empty_slate late_slate 20 1 args wallet
      late_context refl refl late_fits made
