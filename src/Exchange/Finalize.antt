-- ===== src/Exchange/Finalize.antt =====
-- The finalization of a transaction (`finalize_tx` of libwallet/src/api_impl/foreign.rs, with
-- `tx_lock_outputs` and `post_tx` of libwallet/src/api_impl/owner.rs).
pub mod Forgotten
pub mod Identity
pub mod Once
use grin_wallet.Prelude.{ℕ, Bool, true, false, Option, none, some, ◌==◌, if◌then◌else◌, length}
use grin_wallet.Prelude.Result.{slate_state}
use grin_wallet.Prelude.Exec.{pure, lift, raise, gets, ◌>>=◌, ◌>>◌}
use grin_wallet.TxLog.{
  SlateState, unknown, standard1, standard2, standard3, invoice1, invoice2, invoice3,
}
use grin_wallet.Context.{Context, LateLockArgs}
use grin_wallet.Libtx.{Libtx}
use grin_wallet.Slates.{Slate, tx_or_err, adjust_offset}
use grin_wallet.Selection.{Request}
use grin_wallet.Backend.{Env, Op, in_batch}
use grin_wallet.Backend.Contexts.{get_private_context, save_private_context, delete_private_context}
use grin_wallet.Exchange.{Host, check_ttl, update_tx_slate_state, id_of}
use grin_wallet.Exchange.Send.{build_send_tx}
use grin_wallet.Exchange.Lock.{lock_tx_context}
use grin_wallet.Exchange.Complete.{
  new_tx_slate, repopulate_tx, complete_tx, update_stored_tx, verify_slate_payment_proof,
}

module _ (env : Env) (lib : Libtx) (host : Host lib) where
  -- The transaction, which a compact slate does not have.
  abbrev pub filled_tx : Slate lib → Context → Option lib.Transaction → Op env (Slate lib)
  filled_tx s context none =
      repopulate_tx env lib host (record s { tx = some lib.empty_transaction }) context true
  filled_tx s context (some tx) = pure s

  abbrev pub excess_override : Slate lib → Context → Option ℕ
  excess_override s context =
      if length s.participant_data == 1 then context.calculated_excess else none

  unfoldable pub tx_lock_outputs : Slate lib → Op env (Unit {0})
  unfolding get_private_context repopulate_tx lock_tx_context
  tx_lock_outputs s = do
    context ← get_private_context env (id_of env lib host s)
    sl ← filled_tx s context s.tx
    height ← lift host.get_chain_tip
    lock_tx_context env lib host sl height context (excess_override s context)

  abbrev pub forget : Slate lib → Op env (Unit {0})
  forget s = in_batch env (delete_private_context env (id_of env lib host s))

  -- The fee that was promised: `context.fee.map(|f| f.fee()).unwrap_or(0)`
  abbrev promised_fee : Option ℕ → ℕ
  promised_fee none = 0
  promised_fee (some f) = lib.fee (host.fee_of f)

  abbrev pub late_request : LateLockArgs → ℕ → ℕ → Request
  late_request args current_height parent_key_id = record {
    amount = 0;
    amount_includes_fee = false;
    current_height = current_height;
    minimum_confirmations = args.minimum_confirmations;
    max_outputs = args.max_outputs;
    change_outputs = args.num_change_outputs;
    select_all = args.selection_strategy_is_use_all;
    parent_key_id = parent_key_id;
  }

  -- The inputs and outputs of a late lock are selected now.
  abbrev pub late_lock : Slate lib → ℕ → Context → Option LateLockArgs → Op env Context
  late_lock sl parent_key_id context none = pure context
  late_lock sl parent_key_id context (some args) = do
    current_height ← lift host.get_chain_tip
    temp_sl ← new_tx_slate env lib host context.amount false 2 args.ttl_blocks
    built ←
        build_send_tx env lib host temp_sl (late_request args current_height parent_key_id)
          (some (promised_fee context.fee))
    let context' = record context {
      late_lock_args = none;
      input_ids = (built.1).input_ids;
      output_ids = (built.1).output_ids;
    }
    in_batch env (save_private_context env (id_of env lib host sl) context')
    tx_lock_outputs sl
    pure context'

  abbrev pub initiator_keys : Context → Context
  initiator_keys context = record context {
    sec_key = context.initial_sec_key;
    sec_nonce = context.initial_sec_nonce;
  }

  -- The last state of the slate, in the log too.
  unfoldable pub finished : SlateState → Slate lib → ℕ → Op env (Slate lib)
  unfolding update_tx_slate_state
  finished state s parent_key_id = do
    let sl = record s { state = state; amount = 0 }
    update_tx_slate_state env lib host parent_key_id sl
    pure sl

  unfoldable pub finalize_invoice : Slate lib → Context → Op env (Slate lib)
  unfolding adjust_offset repopulate_tx complete_tx update_stored_tx finished
  finalize_invoice s context = do
    lift env.unlocked
    moved ← lift (adjust_offset lib s context)
    whole ← repopulate_tx env lib host moved (initiator_keys context) false
    done ← complete_tx env lib host whole context
    update_stored_tx env lib host context done true
    forget done
    parent_key_id ← gets (λ w. w.parent_key_id)
    finished invoice3 done parent_key_id

  unfoldable pub finalize_from : Slate lib → Context → ℕ → Op env (Slate lib)
  unfolding adjust_offset repopulate_tx complete_tx update_stored_tx verify_slate_payment_proof
      finished
  finalize_from s context parent_key_id = do
    context' ← late_lock s parent_key_id context context.late_lock_args
    moved ← lift (adjust_offset lib s context')
    whole ← repopulate_tx env lib host moved context' true
    done ← complete_tx env lib host whole context'
    verify_slate_payment_proof env lib host parent_key_id context' done
    update_stored_tx env lib host context' done false
    forget done
    finished standard3 done parent_key_id

  unfoldable pub finalize_standard : Slate lib → Context → Op env (Slate lib)
  unfolding finalize_from
  finalize_standard s context = do
    lift env.unlocked
    parent_key_id ← gets (λ w. w.parent_key_id)
    finalize_from s context parent_key_id

  abbrev pub finalize_in : SlateState → Slate lib → Context → Op env (Slate lib)
  finalize_in invoice2 s context = finalize_invoice s context
  finalize_in standard2 s context = finalize_standard s context
  finalize_in unknown s context = raise slate_state
  finalize_in standard1 s context = raise slate_state
  finalize_in standard3 s context = raise slate_state
  finalize_in invoice1 s context = raise slate_state
  finalize_in invoice3 s context = raise slate_state

  abbrev pub post_if : Bool → Slate lib → Op env (Unit {0})
  post_if false s = pure tt
  post_if true s = do tx ← lift (tx_or_err lib s); lift (host.post_tx tx true)

  unfoldable pub finalize_tx : Slate lib → Bool → Op env (Slate lib)
  unfolding get_private_context check_ttl finalize_invoice finalize_standard
  finalize_tx s post_automatically = do
    context ← get_private_context env (id_of env lib host s)
    check_ttl env lib host s
    sl ← finalize_in s.state s context
    post_if post_automatically sl
    pure sl
