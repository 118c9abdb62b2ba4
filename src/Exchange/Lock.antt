-- ===== src/Exchange/Lock.antt =====
-- The locking of outputs for a transaction that is sent (`lock_tx_context` of
-- libwallet/src/internal/selection.rs).
pub mod Changed
pub mod Commits
pub mod Locked
pub mod Whole
use grin_wallet.Prelude.{
  ℕ, ◌+◌, false, Option, none, some, List, [], ◌∷◌, ◌==◌, if◌then◌else◌, length, add64,
}
use grin_wallet.Prelude.Result.{Result, ok, err, panic, payment_proof}
use grin_wallet.Prelude.Exec.{pure, lift, raise, ◌>>=◌, ◌>>◌}
use grin_wallet.Output.{OutputData, unconfirmed}
use grin_wallet.TxLog.{TxLogEntry, StoredProofInfo, new_tx_log_entry, tx_sent}
use grin_wallet.Context.{Context}
use grin_wallet.Libtx.{Libtx}
use grin_wallet.Slates.{Slate, PaymentInfo, calc_excess, tx_or_err}
use grin_wallet.Backend.{
  Env, Op, in_batch, get_output, calc_commit_for_cache, next_tx_log_id, save, save_tx_log_entry,
  lock_output,
}
use grin_wallet.Exchange.{Host, unwrapped, map_option, ttl_option, excess_or}

-- The commitment of a change output, and its amount: the values of the map `output_commits`.
pub record ChangeCommit : Type 0 where
  pub key_id : ℕ
  pub commit : Option ℕ
  pub change_amount : ℕ

-- The map has one entry for a key: the last one that was inserted.
abbrev last_of : Option ChangeCommit → Option ChangeCommit → Option ChangeCommit
last_of none c = c
last_of (some d) c = some d

unfoldable pub commit_at : ℕ → List ChangeCommit → Option ChangeCommit
commit_at id [] = none
commit_at id (c ∷ cs) = last_of (commit_at id cs) (if c.key_id == id then some c else none)

module _ (env : Env) (lib : Libtx) (host : Host lib) where
  unfoldable pub output_commits : List (ℕ × Option ℕ × ℕ) → Op env (List ChangeCommit)
  output_commits [] = pure []
  output_commits ((id, mmr_index, change_amount) ∷ outs) = do
    commit ← calc_commit_for_cache env change_amount id
    rest ← output_commits outs
    pure (record { key_id = id; commit = commit; change_amount = change_amount } ∷ rest)

  -- The loop over the inputs, with the amount so far.
  unfoldable pub lock_inputs : ℕ → ℕ → List (ℕ × Option ℕ × ℕ) → Op env ℕ
  lock_inputs log_id amount_debited [] = pure amount_debited
  lock_inputs log_id amount_debited ((id, mmr_index, amount) ∷ ids) = do
    coin ← get_output env id mmr_index
    lock_output env (record coin { tx_log_entry = some log_id })
    lock_inputs log_id (add64 amount_debited coin.value) ids

  abbrev pub change_data : ℕ → ℕ → ℕ → ℕ → ChangeCommit → OutputData
  change_data parent_key_id height log_id id c = record {
    root_key_id = parent_key_id;
    key_id = id;
    n_child = env.last_path_index id;
    commit = c.commit;
    mmr_index = none;
    value = c.change_amount;
    status = unconfirmed;
    height = height;
    lock_height = 0;
    is_coinbase = false;
    tx_log_entry = some log_id;
  }

  -- The loop over the outputs: the number and the amount of those so far.
  unfoldable pub save_changes :
      ℕ → ℕ → ℕ → List ChangeCommit → ℕ × ℕ → List (ℕ × Option ℕ × ℕ) → Op env (ℕ × ℕ)
  unfolding commit_at
  save_changes parent_key_id height log_id commits (n, amount_credited) [] =
      pure (n, amount_credited)
  save_changes parent_key_id height log_id commits (n, amount_credited) ((id, i, v) ∷ outs) = do
    c ← lift (unwrapped (commit_at id commits))
    save env (change_data parent_key_id height log_id id c)
    save_changes parent_key_id height log_id commits (n + 1, add64 amount_credited c.change_amount)
        outs

  abbrev pub required : Option ℕ → Result ℕ
  required none = err payment_proof
  required (some p) = ok p

  -- What is stored of a payment proof.
  abbrev pub stored_proof :
      ℕ → Option ℕ → Option (PaymentInfo lib) → Op env (Option StoredProofInfo)
  stored_proof parent_key_id index none = pure none
  stored_proof parent_key_id index (some p) = do
    sender_address_path ← lift (required index)
    sender_key ← lift (host.address_from_derivation_path parent_key_id sender_address_path)
    sender_address ← lift (host.onion_address sender_key)
    pure (
        some (record {
          receiver_address = host.address_code p.receiver_address;
          receiver_signature = map_option host.signature_code p.receiver_signature;
          sender_address_path = sender_address_path;
          sender_address = host.address_code sender_address;
          sender_signature = none;
        }))

  abbrev override : Option ℕ → Option ℕ → Option ℕ
  override none e = e
  override (some e) d = some e

  -- The log entry, with the name of its file being the identifier of the slate.
  abbrev pub sent_entry :
      Slate lib → ℕ → Context → Option ℕ → ℕ → ℕ → Option StoredProofInfo → ℕ × ℕ → TxLogEntry
  sent_entry s current_height context excess_override log_id amount_debited proof credited =
      record (new_tx_log_entry context.parent_key_id tx_sent log_id env.now) {
        tx_slate_id = some s.id;
        tx_slate_state = some s.state;
        stored_tx = some s.id;
        fee = context.fee;
        ttl_cutoff_height = ttl_option s.ttl_cutoff_height;
        kernel_excess = override excess_override (excess_or env lib host none (calc_excess lib s));
        kernel_lookup_min_height = some current_height;
        num_inputs = length context.input_ids;
        amount_debited = amount_debited;
        payment_proof = proof;
        num_outputs = credited.0;
        amount_credited = credited.1;
      }

  -- What stands in the batch, once the number of the entry is drawn.
  unfoldable pub lock_under :
      Slate lib → ℕ → Context → Option ℕ → List ChangeCommit → ℕ → Op env (Unit {0})
  unfolding lock_inputs save_changes
  lock_under s current_height context excess_override commits log_id = do
    amount_debited ← lock_inputs log_id 0 context.input_ids
    proof ←
        stored_proof context.parent_key_id context.payment_proof_derivation_index s.payment_proof
    credited ←
        save_changes context.parent_key_id current_height log_id commits (0, 0) context.output_ids
    save_tx_log_entry env
        (sent_entry s current_height context excess_override log_id amount_debited proof credited)
        context.parent_key_id

  unfoldable pub lock_batch :
      Slate lib → ℕ → Context → Option ℕ → List ChangeCommit → Op env (Unit {0})
  unfolding lock_under
  lock_batch s current_height context excess_override commits = do
    log_id ← next_tx_log_id env context.parent_key_id
    lock_under s current_height context excess_override commits log_id

  -- What follows once the commitments of the change outputs are known.
  unfoldable pub lock_with :
      Slate lib → ℕ → Context → Option ℕ → List ChangeCommit → Op env (Unit {0})
  unfolding lock_batch
  lock_with s current_height context excess_override commits = do
    lift env.unlocked
    in_batch env (lock_batch s current_height context excess_override commits)
    tx ← lift (tx_or_err lib s)
    lift (host.store_tx s.id tx)

  unfoldable pub lock_tx_context : Slate lib → ℕ → Context → Option ℕ → Op env (Unit {0})
  unfolding output_commits lock_with
  lock_tx_context s current_height context excess_override = do
    commits ← output_commits context.output_ids
    lock_with s current_height context excess_override commits
