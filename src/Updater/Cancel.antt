-- ===== src/Updater/Cancel.antt =====
-- Cancellation of a transaction (`cancel_tx_and_outputs` of libwallet/src/internal/updater.rs and
-- `cancel_tx` of libwallet/src/internal/tx.rs).
pub mod Restored
pub mod Stored
pub mod Whole
use grin_wallet.Prelude.{
  ℕ, Bool, true, false, Option, some, List, [], ◌∷◌, ◌||◌, if◌then◌else◌, map,
}
use grin_wallet.Prelude.Result.{err, transaction_doesnt_exist, transaction_not_cancellable}
use grin_wallet.Prelude.Exec.{pure, lift, ◌>>=◌, ◌>>◌, for_each}
use grin_wallet.Output.{OutputData, is_status, unconfirmed, reverted, locked, unspent}
use grin_wallet.TxLog.{
  TxLogEntry, TxLogEntryType, tx_received, tx_sent, tx_received_cancelled, tx_sent_cancelled,
  tx_reverted,
}
use grin_wallet.Backend.{Env, Op, in_batch, save, delete, save_tx_log_entry, iter, tx_log_iter}
use grin_wallet.Updater.Query.{listed_txs, retrieved_outputs, with_commits}

abbrev pub cancelled_type : TxLogEntryType → TxLogEntryType
cancelled_type tx_sent = tx_sent_cancelled
cancelled_type tx_received = tx_received_cancelled
cancelled_type tx_reverted = tx_received_cancelled
cancelled_type t = t

abbrev pub is_cancellable : TxLogEntryType → Bool
is_cancellable tx_sent = true
is_cancellable tx_received = true
is_cancellable tx_reverted = true
is_cancellable _ = false

module _ (env : Env) where
  -- The body of the loop over the outputs: two tests, one after the other.
  unfoldable pub cancel_output : OutputData → Op env (Unit {0})
  cancel_output o =
      (if is_status o.status unconfirmed || is_status o.status reverted
        then delete env o.key_id o.mmr_index
        else pure tt)
      >> (if is_status o.status locked then save env (record o { status = unspent }) else pure tt)

  unfoldable pub cancel_tx_and_outputs : TxLogEntry → List OutputData → ℕ → Op env (Unit {0})
  unfolding cancel_output for_each
  cancel_tx_and_outputs tx outputs parent_key_id = in_batch env (do
    for_each outputs (cancel_output)
    save_tx_log_entry env (record tx { tx_type = cancelled_type tx.tx_type }) parent_key_id)

  -- The entry is found and may be cancelled.
  unfoldable pub cancel_found : ℕ → List TxLogEntry → Op env (Unit {0})
  unfolding cancel_tx_and_outputs
  cancel_found parent_key_id (tx ∷ []) w =
      if is_cancellable tx.tx_type
      then (if tx.confirmed
          then (err transaction_not_cancellable, w)
          else ((do
            lift env.unlocked
            res ← lift (
                with_commits env.commit
                  (retrieved_outputs (iter env w) false (some tx.id) (some parent_key_id)))
            cancel_tx_and_outputs tx (map (λ m. m.0) res) parent_key_id)
              w))
      else (err transaction_not_cancellable, w)
  cancel_found parent_key_id _ w = (err transaction_doesnt_exist, w)

  unfoldable pub cancel_tx : ℕ → Option ℕ → Option ℕ → Op env (Unit {0})
  unfolding cancel_found
  cancel_tx parent_key_id tx_id tx_slate_id w =
      cancel_found parent_key_id
        (listed_txs (tx_log_iter env w) tx_id tx_slate_id (some parent_key_id) false) w
