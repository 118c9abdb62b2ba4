-- ===== src/Updater/Cancel/Whole.antt =====
-- The whole of `cancel_tx` (libwallet/src/internal/tx.rs): what it leaves when it succeeds, and that
-- it leaves the wallet as it was when it fails.
use grin_wallet.Prelude.{
  ℕ, ◌≡◌, refl, sym, ◌∙◌, true, false, Option, some, List, [], ◌∷◌, any, arith, ◌≢◌,
}
use mathlib.Core.Path.{subst}
use grin_wallet.Prelude.Result.{Result, ok, err, panic, stuck}
use grin_wallet.Prelude.Exec.{for_each}
use grin_wallet.Bytes.{Bytes, bytes_eq_refl}
use grin_wallet.Output.{OutputData}
use grin_wallet.TxLog.{
  TxLogEntry, TxLogEntryType, confirmed_coinbase, tx_received, tx_sent, tx_received_cancelled,
  tx_sent_cancelled, tx_reverted,
}
use grin_wallet.Backend.{Env, Wallet, iter, tx_log_iter, save_tx_log_entry, id_bytes, to_key_u64}
use grin_wallet.Updater.Query.{listed_txs, retrieved_outputs, with_commits}
use grin_wallet.Updater.Cancel.{
  cancel_output, cancel_tx_and_outputs, cancel_found, cancel_tx, cancelled_type, is_cancellable,
}
use grin_wallet.Updater.Cancel.Restored.{Keyed, after_cancel, at_key, loop}
use grin_wallet.Updater.Cancel.Stored.{All-found, found-IsUnderWay, with_commits-fst}

-- The kinds of entries that can be cancelled, and what each becomes.
pub data CancelledAs : TxLogEntryType → TxLogEntryType → Type 0 where
  sent_as : CancelledAs tx_sent tx_sent_cancelled
  received_as : CancelledAs tx_received tx_received_cancelled
  reverted_as : CancelledAs tx_reverted tx_received_cancelled

cancelled_type-CancelledAs :
    (t : TxLogEntryType) → is_cancellable t ≡ true → CancelledAs t (cancelled_type t)
cancelled_type-CancelledAs tx_sent e = sent_as
cancelled_type-CancelledAs tx_received e = received_as
cancelled_type-CancelledAs tx_reverted e = reverted_as
cancelled_type-CancelledAs confirmed_coinbase e = cc
cancelled_type-CancelledAs tx_received_cancelled e = cc
cancelled_type-CancelledAs tx_sent_cancelled e = cc

-- What a cancellation has done: the outputs are those of the specification, at every key, and the
-- entry is stored with the kind of a cancelled one, all else of it as it was.
pub record IsCancelled (env : Env) (parent_key_id : ℕ) (tx : TxLogEntry) (w w' : Wallet env)
    : Type 0 where
  pub outputs : (k : Bytes) → at_key env w' k ≡ after_cancel tx.id parent_key_id (at_key env w k)
  pub cancelled : TxLogEntryType
  pub entry :
      env.get w'.tx_logs (to_key_u64 (id_bytes parent_key_id) tx.id)
      ≡ some (record tx { tx_type = cancelled })
  pub as_cancelled : CancelledAs tx.tx_type cancelled
  pub was_unconfirmed : tx.confirmed ≡ false

module _ (env : Env) where
  cancel_found_unchanged :
      (parent_key_id : ℕ) (txs : List TxLogEntry) (w : Wallet env)
      → (cancel_found env parent_key_id txs w).0 ≢ ok tt
      → (cancel_found env parent_key_id txs w).1 ≡ w
  unfolding cancel_found cancel_tx_and_outputs
  cancel_found_unchanged parent_key_id [] w n = refl
  cancel_found_unchanged parent_key_id (a ∷ b ∷ txs) w n = refl
  cancel_found_unchanged parent_key_id (tx ∷ []) w n = ground arith

  -- The loop and the entry, in a batch.
  cancel_tx_and_outputs-IsCancelled :
      (parent_key_id : ℕ) (tx : TxLogEntry) (w : Wallet env)
      → env.unlocked ≡ ok tt
      → is_cancellable tx.tx_type ≡ true
      → tx.confirmed ≡ false
      → Keyed env w
      → IsCancelled env parent_key_id tx w
          (cancel_tx_and_outputs env tx
            (retrieved_outputs (iter env w) false (some tx.id) (some parent_key_id))
            parent_key_id
            w).1
  unfolding cancel_tx_and_outputs save_tx_log_entry any
  cancel_tx_and_outputs-IsCancelled parent_key_id tx w u c f keyed =
      let os = retrieved_outputs (iter env w) false (some tx.id) (some parent_key_id) in
      let l =
        loop env tx.id parent_key_id w os w (All-found env tx.id parent_key_id w keyed)
          (found-IsUnderWay env tx.id parent_key_id w keyed) in
      rw u (
        rw l.0 (record {
          outputs = l.1;
          cancelled = cancelled_type tx.tx_type;
          entry =
              env.get-put (for_each os (cancel_output env) w).1.tx_logs
                (to_key_u64 (id_bytes parent_key_id) tx.id)
                (to_key_u64 (id_bytes parent_key_id) tx.id)
                (record tx { tx_type = cancelled_type tx.tx_type })
              ∙ rw (bytes_eq_refl (to_key_u64 (id_bytes parent_key_id) tx.id)) refl;
          as_cancelled = cancelled_type-CancelledAs tx.tx_type c;
          was_unconfirmed = f;
        }))

  cancel_chosen :
      (parent_key_id : ℕ) (tx : TxLogEntry) (w : Wallet env) (res : List (OutputData × ℕ))
      → with_commits env.commit
          (retrieved_outputs (iter env w) false (some tx.id) (some parent_key_id))
        ≡ ok res
      → env.unlocked ≡ ok tt
      → is_cancellable tx.tx_type ≡ true
      → tx.confirmed ≡ false
      → (cancel_found env parent_key_id (tx ∷ []) w).1
        ≡ (cancel_tx_and_outputs env tx
            (retrieved_outputs (iter env w) false (some tx.id) (some parent_key_id))
            parent_key_id
            w).1
  unfolding cancel_found
  cancel_chosen parent_key_id tx w res r u c f =
      let e =
        with_commits-fst env.commit
          (retrieved_outputs (iter env w) false (some tx.id) (some parent_key_id)) res r in
      ground (arith, r, e)

  cancel_chosen-IsCancelled :
      (parent_key_id : ℕ) (tx : TxLogEntry) (w : Wallet env) (r : Result (List (OutputData × ℕ)))
      → with_commits env.commit
          (retrieved_outputs (iter env w) false (some tx.id) (some parent_key_id))
        ≡ r
      → env.unlocked ≡ ok tt
      → is_cancellable tx.tx_type ≡ true
      → tx.confirmed ≡ false
      → Keyed env w
      → (cancel_found env parent_key_id (tx ∷ []) w).0 ≡ ok tt
      → IsCancelled env parent_key_id tx w (cancel_found env parent_key_id (tx ∷ []) w).1
  unfolding cancel_found
  cancel_chosen-IsCancelled parent_key_id tx w (ok res) r u c f keyed e =
      subst (λ v. IsCancelled env parent_key_id tx w v)
        (sym (cancel_chosen parent_key_id tx w res r u c f))
        (cancel_tx_and_outputs-IsCancelled parent_key_id tx w u c f keyed)
  cancel_chosen-IsCancelled parent_key_id tx w (err x) r u c f keyed e = ground arith
  cancel_chosen-IsCancelled parent_key_id tx w panic r u c f keyed e = ground arith
  cancel_chosen-IsCancelled parent_key_id tx w stuck r u c f keyed e = ground arith

  -- Success means that the entry could be cancelled and the wallet was open.
  cancel_found_ok :
      (parent_key_id : ℕ) (tx : TxLogEntry) (w : Wallet env)
      → (cancel_found env parent_key_id (tx ∷ []) w).0 ≡ ok tt
      → (is_cancellable tx.tx_type ≡ true) × (tx.confirmed ≡ false) × (env.unlocked ≡ ok tt)
  unfolding cancel_found
  cancel_found_ok parent_key_id tx w e = ground arith

  cancel_found-IsCancelled :
      (parent_key_id : ℕ) (txs : List TxLogEntry) (w : Wallet env)
      → Keyed env w
      → (cancel_found env parent_key_id txs w).0 ≡ ok tt
      → (tx : TxLogEntry) × (txs ≡ tx ∷ [])
        × IsCancelled env parent_key_id tx w (cancel_found env parent_key_id txs w).1
  unfolding cancel_found
  cancel_found-IsCancelled parent_key_id [] w keyed e = cc
  cancel_found-IsCancelled parent_key_id (a ∷ b ∷ txs) w keyed e = cc
  cancel_found-IsCancelled parent_key_id (tx ∷ []) w keyed e =
      let (c, f, u) = cancel_found_ok parent_key_id tx w e in
      (tx, refl, cancel_chosen-IsCancelled parent_key_id tx w _ refl u c f keyed e)

  -- A cancellation that succeeds on a wallet whose outputs stand under their own keys found exactly
  -- one log entry, that was sent, received or reverted and is not confirmed; afterwards, at every key
  -- of the database: an output of that entry and account that was unconfirmed or reverted is gone, a
  -- locked one is unspent again, and any other output is as it was; and the entry is stored with no
  -- change but its kind: a sent one as sent and cancelled, the others as received and cancelled.
  pub cancel_tx-IsCancelled :
      (parent_key_id : ℕ) (tx_id tx_slate_id : Option ℕ) (w : Wallet env)
      → Keyed env w
      → (cancel_tx env parent_key_id tx_id tx_slate_id w).0 ≡ ok tt
      → (tx : TxLogEntry) × (listed_txs
            (tx_log_iter env w)
            tx_id
            tx_slate_id
            (some parent_key_id)
            false
          ≡ tx ∷ [])
        × IsCancelled env parent_key_id tx w (cancel_tx env parent_key_id tx_id tx_slate_id w).1
  unfolding cancel_tx
  cancel_tx-IsCancelled parent_key_id tx_id tx_slate_id w keyed e =
      cancel_found-IsCancelled parent_key_id
        (listed_txs (tx_log_iter env w) tx_id tx_slate_id (some parent_key_id) false) w keyed e

  -- A cancellation that does not succeed leaves the wallet as it was.
  pub cancel_tx_unchanged :
      (parent_key_id : ℕ) (tx_id tx_slate_id : Option ℕ) (w : Wallet env)
      → (cancel_tx env parent_key_id tx_id tx_slate_id w).0 ≢ ok tt
      → (cancel_tx env parent_key_id tx_id tx_slate_id w).1 ≡ w
  unfolding cancel_tx
  cancel_tx_unchanged parent_key_id tx_id tx_slate_id w n =
      cancel_found_unchanged parent_key_id
        (listed_txs (tx_log_iter env w) tx_id tx_slate_id (some parent_key_id) false) w n
