-- ===== src/Backend.antt =====
-- The wallet's backend (libwallet/src/backend.rs): its tables, the keys of their entries, and the
-- operations of `WalletBackend` and `WalletBatch`. A batch is an operation under `batched`. Every
-- stored value has been written by the wallet, so that none fails to be read back.
pub mod Contexts
pub mod Ids
pub mod Keys
pub mod Triples
use text.Mathlib.Text.{◌==◌ as str_eq}
use Prim.Native.String.{String}
use grin_wallet.Prelude.{ℕ, ◌+◌, ◌%◌, ◌^◌, Option, none, some, List, ◌++◌, find?}
use grin_wallet.Prelude.Result.{Result, ok, err, not_found, ok_or, unknown_account_label}
use grin_wallet.Prelude.Exec.{Exec, pure, lift, batched, ◌>>=◌, ◌>>◌}
use grin_wallet.Bytes.{Bytes, be_bytes}
use grin_wallet.Store.{Store}
use grin_wallet.Core.{Core}
use grin_wallet.Output.{OutputData, lock}
use grin_wallet.TxLog.{TxLogEntry}
use grin_wallet.Context.{Context}

-- What a call of the wallet takes from its surroundings: the database, the chain's constants, and
-- the keychain crate. `unlocked` is the outcome of `keychain(mask)` for the mask of the call.
pub record Env : Type 1 where
  pub store : Store
  pub open store use *
  pub core : Core
  pub unlocked : Result (Unit {0})
  -- `keychain.commit(amount, id)`
  pub commit : ℕ → ℕ → Result ℕ
  -- `Identifier::from_path` of a parent's path with one more child number
  pub child_path : ℕ → ℕ → ℕ
  -- `to_path().last_path_index()`
  pub last_path_index : ℕ → ℕ
  -- `parent_path()`
  pub parent_path : ℕ → ℕ
  -- the excess of a reward of a value with a commitment, by `commit_value` and `commit_sum`
  pub coinbase_excess : ℕ → ℕ → Result ℕ
  -- `label.as_bytes()`
  pub as_bytes : String → Bytes
  -- `derive_key(0, root_key_id)`
  pub root_key : Result Bytes
  -- Blake2b with a digest of 32 bytes
  pub blake2b : Bytes → Bytes
  -- the length of `serde_json::to_vec` of a context
  pub context_len : Context → ℕ
  -- `Utc::now()`
  pub now : ℕ

pub record AcctPathMapping : Type 0 where
  pub label : String
  pub path : ℕ

-- An identifier has 17 bytes.
abbrev pub id_bytes : ℕ → Bytes
id_bytes = be_bytes 17

unfoldable pub to_key_u64 : Bytes → ℕ → Bytes
to_key_u64 k val = k ++ be_bytes 8 val

-- The key of an output, as `save`, `get` and `delete` build it.
unfoldable pub output_key : ℕ → Option ℕ → Bytes
output_key id (some i) = to_key_u64 (id_bytes id) i
output_key id none = id_bytes id

module _ (env : Env) where
  pub record Wallet : Type 0 where
    pub outputs : env.Table OutputData
    pub tx_logs : env.Table TxLogEntry
    pub tx_log_ids : env.Table ℕ
    pub child_indices : env.Table ℕ
    pub confirmed_heights : env.Table ℕ
    pub acct_paths : env.Table AcctPathMapping
    pub contexts : env.Table Context
    pub parent_key_id : ℕ

  abbrev pub Op : Type 0 → Type 0
  Op A = Exec Wallet A

  -- `wallet.batch(mask)?`, the writes and `batch.commit()?`
  abbrev pub in_batch : {A : Type 0} → Op A → Op A
  in_batch m = lift env.unlocked >>= λ _. batched m

  unfoldable pub get_output : ℕ → Option ℕ → Op OutputData
  get_output id mmr_index w = (ok_or (env.get w.outputs (output_key id mmr_index)) not_found, w)

  unfoldable pub save : OutputData → Op (Unit {0})
  save out w =
      (ok tt, record w { outputs = env.put w.outputs (output_key out.key_id out.mmr_index) out })

  unfoldable pub delete : ℕ → Option ℕ → Op (Unit {0})
  delete id mmr_index w =
      (ok tt, record w { outputs = env.delete w.outputs (output_key id mmr_index) })

  unfoldable pub lock_output : OutputData → Op (Unit {0})
  unfolding save lock
  lock_output out = save (lock out)

  abbrev pub iter : Wallet → List OutputData
  iter w = env.iter w.outputs

  abbrev pub tx_log_iter : Wallet → List TxLogEntry
  tx_log_iter w = env.iter w.tx_logs

  abbrev pub or_zero : Option ℕ → ℕ
  or_zero none = 0
  or_zero (some n) = n

  unfoldable pub next_tx_log_id : ℕ → Op ℕ
  next_tx_log_id parent_key_id w =
      let last_tx_log_id : ℕ = or_zero (env.get w.tx_log_ids (id_bytes parent_key_id)) in
      (
        ok last_tx_log_id,
        record w {
          tx_log_ids =
              env.put w.tx_log_ids (id_bytes parent_key_id) ((last_tx_log_id + 1) % 2 ^ 32);
        },
      )

  unfoldable pub save_tx_log_entry : TxLogEntry → ℕ → Op (Unit {0})
  save_tx_log_entry tx parent_id w =
      (ok tt, record w { tx_logs = env.put w.tx_logs (to_key_u64 (id_bytes parent_id) tx.id) tx })

  unfoldable pub delete_tx_log_entry : ℕ → ℕ → Op (Unit {0})
  delete_tx_log_entry tx_id parent_id w =
      (ok tt, record w { tx_logs = env.delete w.tx_logs (to_key_u64 (id_bytes parent_id) tx_id) })

  unfoldable pub save_last_confirmed_height : ℕ → ℕ → Op (Unit {0})
  save_last_confirmed_height parent_key_id height w = (
    ok tt,
    record w { confirmed_heights = env.put w.confirmed_heights (id_bytes parent_key_id) height },
  )

  unfoldable pub last_confirmed_height_for_parent : ℕ → Wallet → ℕ
  last_confirmed_height_for_parent parent_key_id w =
      or_zero (env.get w.confirmed_heights (id_bytes parent_key_id))

  abbrev pub last_confirmed_height : Wallet → ℕ
  last_confirmed_height w = last_confirmed_height_for_parent w.parent_key_id w

  unfoldable pub save_child_index : ℕ → ℕ → Op (Unit {0})
  save_child_index parent_id child_n w =
      (ok tt, record w { child_indices = env.put w.child_indices (id_bytes parent_id) child_n })

  unfoldable pub current_child_index : ℕ → Wallet → ℕ
  current_child_index parent_key_id w = or_zero (env.get w.child_indices (id_bytes parent_key_id))

  -- The child number is written back, plus one, in a batch of its own.
  unfoldable pub next_child : Op ℕ
  unfolding current_child_index save_child_index
  next_child w =
      let deriv_idx : ℕ = current_child_index w.parent_key_id w in
      (in_batch (save_child_index w.parent_key_id ((deriv_idx + 1) % 2 ^ 32))
          >> pure (env.child_path w.parent_key_id deriv_idx))
        w

  unfoldable pub save_acct_path : AcctPathMapping → Op (Unit {0})
  save_acct_path mapping w =
      (ok tt, record w { acct_paths = env.put w.acct_paths (env.as_bytes mapping.label) mapping })

  abbrev pub get_acct_path : String → Wallet → Option AcctPathMapping
  get_acct_path label w = env.get w.acct_paths (env.as_bytes label)

  abbrev pub acct_path_iter : Wallet → List AcctPathMapping
  acct_path_iter w = env.iter w.acct_paths

  abbrev set_to : Option AcctPathMapping → Op (Unit {0})
  set_to none w = (err unknown_account_label, w)
  set_to (some a) w = (ok tt, record w { parent_key_id = a.path })

  unfoldable pub set_parent_key_id_by_name : String → Op (Unit {0})
  set_parent_key_id_by_name label w =
      set_to (find? (λ l. str_eq l.label label) (acct_path_iter w)) w

  -- `calc_commit_for_cache`, of an unlocked wallet
  abbrev pub calc_commit_for_cache : ℕ → ℕ → Op (Option ℕ)
  calc_commit_for_cache amount id = do
    lift env.unlocked
    c ← lift (env.commit amount id)
    pure (some c)
