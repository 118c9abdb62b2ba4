-- ===== src/Examples.antt =====
-- A small wallet on the concrete database, for the theorems that speak of a whole wallet. It has an
-- unspent output, one locked by an outgoing transaction, and the change of that transaction.
mod Wallets
mod Coins
mod Slates
mod Backends
mod Armors
mod Accounts
mod Cleaning
mod Toy
mod Exchanges
mod Receiving
mod Finalizing
mod Rewards
mod Late
mod Proofs
mod Sending
use grin_wallet.Prelude.{ℕ, ◌+◌, ◌*◌, Bool, true, false, Option, none, some, List, [], ◌∷◌, length}
use grin_wallet.Prelude.Result.{ok}
use grin_wallet.Bytes.{be_bytes}
use grin_wallet.Store.Assoc.{assoc_store}
use grin_wallet.Core.{Core}
use grin_wallet.Output.{OutputData, OutputStatus, unspent, locked, unconfirmed}
use grin_wallet.TxLog.{TxLogEntry, tx_sent, new_tx_log_entry}
use grin_wallet.Backend.{Env, Wallet, output_key, to_key_u64, id_bytes}
use grin_wallet.Selection.{Request}
use grin_wallet.Updater.Filter.{QueryArgs}

abbrev core : Core
core = record {
  tx_fee = λ i o k. 4 * o + k;
  weight_by_iok = λ i o k. i + 21 * o + 3 * k;
  max_tx_weight = 40000;
  coinbase_maturity = 1440;
  reward = λ fees. 60 + fees;
}

abbrev env : Env
env = record {
  store = assoc_store;
  core = core;
  unlocked = ok tt;
  commit = λ v k. ok (v * 1000 + k);
  child_path = λ p n. p * 100 + n;
  last_path_index = λ k. k;
  parent_path = λ k. k;
  coinbase_excess = λ v c. ok (v + c);
  as_bytes = λ s. [];
  root_key = ok (7 ∷ []);
  blake2b = λ bs. be_bytes 32 (length bs);
  context_len = λ c. 2000;
  now = 77;
}

abbrev coin : ℕ → ℕ → OutputStatus → Option ℕ → OutputData
coin key value status entry = record {
  root_key_id = 1;
  key_id = key;
  n_child = key;
  commit = some key;
  mmr_index = none;
  value = value;
  status = status;
  height = 10;
  lock_height = 0;
  is_coinbase = false;
  tx_log_entry = entry;
}

abbrev free : OutputData
free = coin 11 40 unspent none

abbrev bound : OutputData
bound = coin 12 30 locked (some 3)

abbrev change : OutputData
change = coin 13 9 unconfirmed (some 3)

abbrev sent : TxLogEntry
sent = new_tx_log_entry 1 tx_sent 3 70

abbrev wallet : Wallet env
wallet = record {
  outputs =
      (output_key 11 none, free) ∷ (output_key 12 none, bound) ∷ (output_key 13 none, change) ∷ [];
  tx_logs = (to_key_u64 (id_bytes 1) 3, sent) ∷ [];
  tx_log_ids = [];
  child_indices = [];
  confirmed_heights = [];
  acct_paths = [];
  contexts = [];
  parent_key_id = 1;
}

abbrev request : Request
request = record {
  amount = 20;
  amount_includes_fee = false;
  current_height = 20;
  minimum_confirmations = 10;
  max_outputs = 2;
  change_outputs = 1;
  select_all = false;
  parent_key_id = 1;
}

abbrev no_query : QueryArgs
no_query = record {
  min_id = none;
  max_id = none;
  limit = none;
  exclude_cancelled = none;
  include_outstanding_only = none;
  include_confirmed_only = none;
  include_sent_only = none;
  include_received_only = none;
  include_coinbase_only = none;
  include_reverted_only = none;
  min_amount = none;
  max_amount = none;
  min_creation_timestamp = none;
  max_creation_timestamp = none;
  min_confirmed_timestamp = none;
  max_confirmed_timestamp = none;
  sort_field = none;
  sort_order = none;
}
