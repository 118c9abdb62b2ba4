-- ===== src/Exchange/Receive.antt =====
-- The recipient (`build_recipient_output` of libwallet/src/internal/selection.rs,
-- `add_output_to_slate` of libwallet/src/internal/tx.rs, `receive_tx` of
-- libwallet/src/api_impl/foreign.rs).
pub mod Logged
pub mod Written
pub mod Accounts
pub mod Recorded
pub mod Once
use Prim.Native.String.{String}
use grin_wallet.Prelude.{
  ℕ, Bool, true, false, Option, none, some, List, [], ◌∷◌, any, if◌then◌else◌,
}
use grin_wallet.Prelude.Result.{Result, ok, err, panic, stuck, transaction_already_received}
use grin_wallet.Prelude.Exec.{pure, lift, raise, gets, ◌>>=◌, ◌>>◌}
use grin_wallet.Bytes.{Bytes}
use grin_wallet.Output.{OutputData, unconfirmed}
use grin_wallet.TxLog.{TxLogEntry, new_tx_log_entry, tx_received, is_type, standard2}
use grin_wallet.Context.{Context, add_output}
use grin_wallet.Libtx.{Libtx}
use grin_wallet.Slates.{
  Slate, PaymentInfo, add_transaction_elements, calc_excess, fill_round_1, adjust_offset,
  remove_other_sigdata,
}
use grin_wallet.Slates.Signing.{fill_round_2}
use grin_wallet.Selection.Change.{output}
use grin_wallet.Backend.{
  Env, Wallet, Op, AcctPathMapping, in_batch, next_child, calc_commit_for_cache, next_tx_log_id,
  save, save_tx_log_entry, get_acct_path, tx_log_iter, last_confirmed_height_for_parent,
}
use grin_wallet.Updater.Query.{listed_txs}
use grin_wallet.Exchange.{
  Host, map_option, ttl_option, excess_or, new_context, check_ttl, update_tx_slate_state,
  create_payment_proof_signature,
}

module _ (env : Env) (lib : Libtx) (host : Host lib) where
  -- `unwrap()`
  abbrev pub unwrap : {A : Type 0} → Op env A → Op env A
  unwrap m w = (expect (m w).0, (m w).1)
    where
      expect : {A : Type 0} → Result A → Result A
      expect (ok a) = ok a
      expect (err e) = panic
      expect panic = panic
      expect stuck = stuck

  -- The log entry of a received transaction.
  abbrev pub received_entry : Slate lib → ℕ → ℕ → ℕ → TxLogEntry
  received_entry s current_height parent_key_id log_id =
      record (new_tx_log_entry parent_key_id tx_received log_id env.now) {
        tx_slate_id = some s.id;
        tx_slate_state = some s.state;
        amount_credited = s.amount;
        num_outputs = 1;
        ttl_cutoff_height = ttl_option s.ttl_cutoff_height;
        kernel_excess = excess_or env lib host none (calc_excess lib s);
        kernel_lookup_min_height = some current_height;
      }

  -- The output of a received transaction.
  abbrev pub received_output : ℕ → ℕ → ℕ → ℕ → Option ℕ → ℕ → OutputData
  received_output amount height parent_key_id key_id commit log_id = record {
    root_key_id = parent_key_id;
    key_id = key_id;
    n_child = env.last_path_index key_id;
    commit = commit;
    mmr_index = none;
    value = amount;
    status = unconfirmed;
    height = height;
    lock_height = 0;
    is_coinbase = false;
    tx_log_entry = some log_id;
  }

  -- What is written in the batch of `build_recipient_output`.
  unfoldable pub written : Slate lib → ℕ → ℕ → ℕ → ℕ → Option ℕ → Op env TxLogEntry
  written s amount current_height parent_key_id key_id commit = do
    log_id ← next_tx_log_id env parent_key_id
    save env (received_output amount current_height parent_key_id key_id commit log_id)
    save_tx_log_entry env (received_entry s current_height parent_key_id log_id) parent_key_id
    pure (received_entry s current_height parent_key_id log_id)

  unfoldable pub build_recipient_output :
      Slate lib → ℕ → ℕ → Op env (Slate lib × ℕ × Context × TxLogEntry)
  unfolding add_output written
  build_recipient_output s current_height parent_key_id = do
    key_id ← unwrap (next_child env)
    lift env.unlocked
    built ← lift (add_transaction_elements lib s (output s.amount key_id ∷ []))
    let s' = built.0
    let context =
        record (add_output (new_context env lib host parent_key_id) key_id none s.amount) {
          amount = s.amount;
          fee = map_option host.fee_code (host.as_opt s'.fee_fields);
        }
    commit ← calc_commit_for_cache env s.amount key_id
    t ← in_batch env (written s' s.amount current_height parent_key_id key_id commit)
    pure (s', key_id, context, t)

  unfoldable pub add_output_to_slate : Slate lib → ℕ → ℕ → Bool → Op env (Slate lib × Context)
  unfolding build_recipient_output
  add_output_to_slate s current_height parent_key_id is_initiator = do
    lift env.unlocked
    built ← build_recipient_output s current_height parent_key_id
    let context = built.2
    filled ← lift (fill_round_1 lib built.0 context)
    let context' = record context { initial_sec_key = context.sec_key }
    if is_initiator then pure (filled, context') else (do
      lift env.unlocked
      signed ← lift (fill_round_2 lib filled context'.sec_key context'.sec_nonce)
      lift env.unlocked
      excess ← lift (calc_excess lib signed)
      in_batch env (
          save_tx_log_entry env
            (record (built.3) { kernel_excess = some (host.commitment_code excess) }) parent_key_id)
      pure (signed, context'))

  -- The account that is named, where there is one, else the active one.
  abbrev pub account_of : ℕ → Option AcctPathMapping → ℕ
  account_of active none = active
  account_of active (some pm) = pm.path

  unfoldable pub dest_account : Option String → Wallet env → ℕ
  dest_account none w = w.parent_key_id
  dest_account (some d) w = account_of w.parent_key_id (get_acct_path env d w)

  unfoldable pub is_received : Slate lib → ℕ → Bool → Wallet env → Bool
  unfolding listed_txs
  is_received s parent_key_id outstanding_only w =
      any (λ t. is_type t.tx_type tx_received)
        (listed_txs (tx_log_iter env w) none (some s.id) (some parent_key_id) outstanding_only)

  abbrev pub prove :
      ℕ → Slate lib → lib.Commitment → Option (PaymentInfo lib) → Op env (Option (PaymentInfo lib))
  prove parent_key_id s excess none = pure none
  prove parent_key_id s excess (some p) = do
    key ← lift (host.address_from_derivation_path parent_key_id 0)
    pure (
        some (record p {
          receiver_signature =
              some
                (create_payment_proof_signature env lib host s.amount excess p.sender_address key);
        }))

  -- The steps of `receive_tx` once the slate is not expired and was not received before.
  unfoldable pub receive_at : Slate lib → ℕ → ℕ → Op env (Slate lib)
  unfolding add_output_to_slate
  receive_at s parent_key_id height = do
    lift env.unlocked
    added ←
        add_output_to_slate (record s { tx = some lib.empty_transaction }) height parent_key_id
          false
    let context = added.1
    moved ← lift (adjust_offset lib added.0 context)
    excess ← lift (calc_excess lib moved)
    proof ← prove parent_key_id moved excess moved.payment_proof
    mine ← lift (
        remove_other_sigdata lib
          (record moved { payment_proof = proof; amount = 0; fee_fields = lib.zero_fee })
          context.sec_nonce context.sec_key)
    let ret_slate = record mine { state = standard2 }
    update_tx_slate_state env lib host parent_key_id ret_slate
    pure ret_slate

  abbrev pub receive_new : Slate lib → ℕ → Op env (Slate lib)
  receive_new s parent_key_id w =
      receive_at s parent_key_id (last_confirmed_height_for_parent env parent_key_id w) w

  unfoldable pub receive_tx : Slate lib → Option String → Bool → Op env (Slate lib)
  unfolding check_ttl dest_account is_received receive_at
  receive_tx s dest_acct_name use_test_rng = do
    check_ttl env lib host s
    parent_key_id ← gets (dest_account dest_acct_name)
    received ← gets (is_received s parent_key_id use_test_rng)
    if received then raise transaction_already_received else receive_new s parent_key_id
