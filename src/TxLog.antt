-- ===== src/TxLog.antt =====
-- The log of transactions (libwallet/src/types.rs) and the states of a slate
-- (libwallet/src/slate.rs). Identifiers, UUIDs, times and fees are numbers.
use grin_wallet.Prelude.{
  ℕ, Bool, true, false, Option, none, some, List, [], ◌∷◌, if◌then◌else◌, add64,
}

pub data SlateState : Type 0 where
  unknown standard1 standard2 standard3 invoice1 invoice2 invoice3 : SlateState

pub data TxLogEntryType : Type 0 where
  confirmed_coinbase tx_received tx_sent tx_received_cancelled tx_sent_cancelled tx_reverted :
      TxLogEntryType

abbrev pub is_type : TxLogEntryType → TxLogEntryType → Bool
is_type confirmed_coinbase confirmed_coinbase = true
is_type tx_received tx_received = true
is_type tx_sent tx_sent = true
is_type tx_received_cancelled tx_received_cancelled = true
is_type tx_sent_cancelled tx_sent_cancelled = true
is_type tx_reverted tx_reverted = true
is_type _ _ = false

pub record StoredProofInfo : Type 0 where
  pub receiver_address : ℕ
  pub receiver_signature : Option ℕ
  pub sender_address_path : ℕ
  pub sender_address : ℕ
  pub sender_signature : Option ℕ

pub record TxLogEntry : Type 0 where
  pub parent_key_id : ℕ
  pub id : ℕ
  pub tx_slate_id : Option ℕ
  pub tx_slate_state : Option SlateState
  pub tx_type : TxLogEntryType
  pub creation_ts : ℕ
  pub confirmation_ts : Option ℕ
  pub confirmed : Bool
  pub num_inputs : ℕ
  pub num_outputs : ℕ
  pub amount_credited : ℕ
  pub amount_debited : ℕ
  pub fee : Option ℕ
  pub ttl_cutoff_height : Option ℕ
  pub stored_tx : Option ℕ
  pub kernel_excess : Option ℕ
  pub kernel_lookup_min_height : Option ℕ
  pub payment_proof : Option StoredProofInfo
  pub reverted_after : Option ℕ

-- `TxLogEntry::new` at the time `now`.
unfoldable pub new_tx_log_entry : ℕ → TxLogEntryType → ℕ → ℕ → TxLogEntry
new_tx_log_entry parent_key_id t id now = record {
  parent_key_id = parent_key_id;
  id = id;
  tx_slate_id = none;
  tx_slate_state = none;
  tx_type = t;
  creation_ts = now;
  confirmation_ts = none;
  confirmed = false;
  num_inputs = 0;
  num_outputs = 0;
  amount_credited = 0;
  amount_debited = 0;
  fee = none;
  ttl_cutoff_height = none;
  stored_tx = none;
  kernel_excess = none;
  kernel_lookup_min_height = none;
  payment_proof = none;
  reverted_after = none;
}

-- The fold of `sum_confirmed`, from the sums so far.
unfoldable pub sum_confirmed_from : ℕ × ℕ → List TxLogEntry → ℕ × ℕ
sum_confirmed_from acc [] = acc
sum_confirmed_from acc (tx ∷ txs) =
    sum_confirmed_from
      (if tx.confirmed
        then (add64 acc.0 tx.amount_credited, add64 acc.1 tx.amount_debited)
        else acc)
      txs

unfoldable pub update_confirmation_ts : TxLogEntry → ℕ → TxLogEntry
update_confirmation_ts t now = record t { confirmation_ts = some now }
