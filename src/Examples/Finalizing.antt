-- ===== src/Examples/Finalizing.antt =====
-- The theorems on finalization at a concrete wallet, slate and context.
use grin_wallet.Prelude.{◌≡◌, refl, true, false, some, [], ◌∷◌, find?, filter, any, add64}
use grin_wallet.Prelude.Result.{ok, err, not_found}
use grin_wallet.Bytes.{be_bytes, bytes_eq}
use grin_wallet.Store.Assoc.{lookup, values}
use grin_wallet.Prelude.Sort.{sort_by, insert_by}
use grin_wallet.TxLog.{standard3, new_tx_log_entry}
use grin_wallet.Slate.{plain}
use grin_wallet.Libtx.{plain as plain_kernel}
use grin_wallet.Slates.{
  Slate, adjust_offset, derive_keys, add_participant_info, kept_sig, add_transaction_elements,
  update_kernel, kernel_features, msg_to_sign, calc_excess,
}
use grin_wallet.Slates.Signing.{
  fill_round_2, verify_part_sigs, verify_each, set_sig, finalize, finalize_signature,
  finalize_transaction, check_fees, part_sigs,
}
use grin_wallet.Updater.Query.{listed_txs, is_listed}
use grin_wallet.Backend.{Wallet, to_key_u64, id_bytes, save_tx_log_entry, output_key}
use grin_wallet.Backend.Contexts.{
  save_private_context, get_private_context, delete_private_context, private_ctx_xor_keys,
  xor_bytes, xor_bits,
}
use grin_wallet.Exchange.{check_ttl, update_tx_slate_state}
use grin_wallet.Exchange.Complete.{
  repopulate_tx, restore_offset, input_parts, output_parts, complete_tx, update_stored_tx,
  verify_slate_payment_proof,
}
use grin_wallet.Exchange.Finalize.{finalize_tx, finalize_standard, finalize_from, finished}
use grin_wallet.Exchange.Finalize.Once.{finalize_tx_once}
use grin_wallet.Slates.Signing.Final.{IsFinal, finalize-IsFinal}
use grin_wallet.Examples.{core, env, wallet, sent as sent_entry}
use grin_wallet.Examples.Toy.{toy, toy_parts}
use grin_wallet.Examples.Receiving.{host, answer, received_tx}
use grin_wallet.Examples.Sending.{spending}

-- A wallet that waits for the answer to the slate 5.
abbrev pending : Wallet env
pending =
    (save_private_context env (be_bytes 16 5) spending (record wallet {
      tx_logs = (to_key_u64 (id_bytes 1) 3, record sent_entry { tx_slate_id = some 5 }) ∷ [];
    })).1

abbrev finalized : Slate toy
finalized = record answer {
  state = standard3;
  tx = some (record received_tx {
    ins = record { features = plain; commit = true } ∷ [];
    kers = record { features = plain_kernel true; excess = true; excess_sig = true } ∷ [];
    off = true;
  });
  fee_fields = true;
  offset = true;
}

run : (finalize_tx env toy host answer false pending).0 ≡ ok finalized
unfolding finalize_tx finalize_standard finalize_from finished get_private_context
    private_ctx_xor_keys xor_bytes xor_bits save_private_context delete_private_context check_ttl
    adjust_offset derive_keys repopulate_tx restore_offset input_parts output_parts
    add_participant_info kept_sig add_transaction_elements update_kernel kernel_features complete_tx
    fill_round_2 verify_part_sigs verify_each set_sig msg_to_sign finalize finalize_signature
    finalize_transaction check_fees calc_excess part_sigs update_stored_tx listed_txs is_listed
    verify_slate_payment_proof update_tx_slate_state save_tx_log_entry new_tx_log_entry output_key
    lookup values find? filter any sort_by insert_by be_bytes bytes_eq to_key_u64 add64
run = refl

finalize_tx_once_example :
    finalize_tx env toy host answer true (finalize_tx env toy host answer false pending).1
    ≡ (err not_found, (finalize_tx env toy host answer false pending).1)
finalize_tx_once_example =
    finalize_tx_once env toy host answer answer false true pending finalized refl run

-- The slate as it is before its last steps.
abbrev unfinished : Slate toy
unfinished = record answer {
  amount = 20;
  fee_fields = true;
  tx = some (record received_tx {
    kers = record { features = plain_kernel true; excess = false; excess_sig = false } ∷ [];
  });
}

abbrev finished_slate : Slate toy
finished_slate = record unfinished {
  tx = some (record received_tx {
    kers = record { features = plain_kernel true; excess = true; excess_sig = true } ∷ [];
  });
}

finishes : finalize toy core unfinished ≡ ok finished_slate
unfolding finalize finalize_signature finalize_transaction check_fees calc_excess part_sigs
    verify_part_sigs verify_each msg_to_sign kernel_features add64
finishes = refl

finalize-IsFinal_example : IsFinal toy unfinished core finished_slate
finalize-IsFinal_example = finalize-IsFinal toy unfinished toy_parts core finished_slate finishes
