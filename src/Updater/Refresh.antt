-- ===== src/Updater/Refresh.antt =====
-- The refresh of the wallet from the node (`refresh_outputs` and what it calls, of
-- libwallet/src/internal/updater.rs). The node is a parameter. The hash maps are iterated in the
-- order of the lists that stand for them.
pub mod Height
pub mod Kept
pub mod Clean
pub mod Old
use grin_wallet.Prelude.{
  ℕ, ◌-◌, Bool, true, false, not, Option, none, some, List, [], ◌∷◌, ◌&&◌, ◌||◌, ltb, leb, ◌==◌,
  opt_eq, if◌then◌else◌, any, filter, find?, map,
}
use grin_wallet.Prelude.Result.{Result, ok, err, panic, stuck}
use grin_wallet.Prelude.Exec.{pure, lift, ◌>>=◌, ◌>>◌, for_each}
use grin_wallet.Output.{
  OutputData, OutputStatus, is_status, unconfirmed, reverted, unspent, mark_unspent, mark_spent,
  mark_reverted,
}
use grin_wallet.TxLog.{
  TxLogEntry, TxLogEntryType, is_type, confirmed_coinbase, tx_received, tx_reverted,
  new_tx_log_entry, update_confirmation_ts,
}
use grin_wallet.Backend.{
  Env, Wallet, Op, in_batch, get_output, save, delete, iter, tx_log_iter, next_tx_log_id,
  save_tx_log_entry, save_last_confirmed_height, last_confirmed_height_for_parent,
}
use grin_wallet.Updater.Query.{Tracked, map_wallet_outputs}

-- What the wallet asks the node: the tip, the height of each output that is on the chain, and
-- whether a kernel is on the chain from a height on.
pub record NodeClient : Type 0 where
  pub get_chain_tip : Result ℕ
  pub get_outputs_from_node : List ℕ → Result (ℕ → Option ℕ)
  pub get_kernel : ℕ → Option ℕ → Result Bool

abbrev absent : Option ℕ → Bool
absent none = true
absent (some h) = false

abbrev contains : List ℕ → ℕ → Bool
contains ids id = any (λ i. i == id) ids

abbrev pub holds_id : List ℕ → Option ℕ → Bool
holds_id ids none = false
holds_id ids (some id) = contains ids id

-- Entries of outputs that were unspent and are no longer on the chain.
unfoldable pub disappeared : List Tracked → (ℕ → Option ℕ) → List ℕ
disappeared [] api_outputs = []
disappeared (t ∷ ts) api_outputs = elim (t.tx_log_entry) [
  | none ↦ disappeared ts api_outputs
  | some id ↦
      let rest = disappeared ts api_outputs in
      if t.was_unspent && absent (api_outputs t.commitment) then id ∷ rest else rest
]

-- The loop over the kernels of the entries.
unfoldable pub missing_kernels : NodeClient → List TxLogEntry → Result (List ℕ)
missing_kernels node [] = ok []
missing_kernels node (t ∷ ts) = elim (t.kernel_excess) [
  | none ↦ missing_kernels node ts
  | some excess ↦ elim (node.get_kernel excess t.kernel_lookup_min_height) [
    | ok found ↦ elim (missing_kernels node ts) [
      | ok rest ↦ ok (if found then rest else t.id ∷ rest)
      | err e ↦ err e
      | panic ↦ panic
      | stuck ↦ stuck
    ]
    | err e ↦ err e
    | panic ↦ panic
    | stuck ↦ stuck
  ]
]

module _ (env : Env) where
  unfoldable pub find_reverted_kernels :
      NodeClient → List Tracked → (ℕ → Option ℕ) → ℕ → Wallet env → Result (List ℕ)
  unfolding disappeared missing_kernels
  find_reverted_kernels node wallet_outputs api_outputs parent_key_id w =
      let ids = disappeared wallet_outputs api_outputs in
      missing_kernels node (
        filter
          (λ t.
            contains ids t.id
            && ((t.parent_key_id == parent_key_id) && is_type t.tx_type tx_received))
          (tx_log_iter env w))

  -- The entry of a reward that is confirmed; the output refers to it from then on.
  unfoldable pub log_coinbase : ℕ → ℕ → ℕ → OutputData → Op env OutputData
  log_coinbase parent_key_id height commitment output = do
    log_id ← next_tx_log_id env parent_key_id
    excess ← lift (env.coinbase_excess output.value commitment)
    let t = new_tx_log_entry parent_key_id confirmed_coinbase log_id env.now
    let t = record t {
      confirmed = true;
      amount_credited = output.value;
      amount_debited = 0;
      num_outputs = 1;
      kernel_excess = some excess;
      kernel_lookup_min_height = some height;
    }
    save_tx_log_entry env (update_confirmation_ts t env.now) parent_key_id
    pure (record output { tx_log_entry = some log_id })

  abbrev unreverted : TxLogEntry → TxLogEntry
  unreverted t =
      if is_type t.tx_type tx_reverted
      then record t { tx_type = tx_received; reverted_after = none }
      else t

  abbrev confirm_found : ℕ → Option TxLogEntry → Op env (Unit {0})
  confirm_found parent_key_id none w = (ok tt, w)
  confirm_found parent_key_id (some t) w =
      save_tx_log_entry env
        (record (update_confirmation_ts (unreverted t) env.now) { confirmed = true }) parent_key_id
        w

  -- The entry that an output refers to is confirmed.
  unfoldable pub confirm_tx : ℕ → OutputData → Op env (Unit {0})
  confirm_tx parent_key_id output w =
      confirm_found parent_key_id
        (find? (λ t. opt_eq output.tx_log_entry (some t.id) && (t.parent_key_id == parent_key_id))
          (tx_log_iter env w))
        w

  -- An output that the node reports at a height.
  unfoldable pub confirm_output : ℕ → ℕ → ℕ → ℕ → OutputData → Op env (Unit {0})
  unfolding log_coinbase confirm_tx
  confirm_output parent_key_id height commitment at_height output = do
    output ←
        if output.is_coinbase && is_status output.status unconfirmed
        then log_coinbase parent_key_id height commitment output
        else pure output
    if not output.is_coinbase
          && (is_status output.status unconfirmed || is_status output.status reverted)
        then confirm_tx parent_key_id output
        else pure tt
    save env (mark_unspent (record output { height = at_height }))

  -- An output that the node does not report.
  unfoldable pub retire_output : List ℕ → OutputData → Op env (Unit {0})
  retire_output reverted_kernels output = save env (
      if not output.is_coinbase && holds_id reverted_kernels output.tx_log_entry
      then mark_reverted output
      else mark_spent output)

  abbrev pub apply_found : ℕ → ℕ → List ℕ → ℕ → Option ℕ → Result OutputData → Op env (Unit {0})
  apply_found parent_key_id height reverted_kernels commitment none (ok output) =
      retire_output reverted_kernels output
  apply_found parent_key_id height reverted_kernels commitment (some at_height) (ok output) =
      confirm_output parent_key_id height commitment at_height output
  apply_found parent_key_id height reverted_kernels commitment reported _ = pure tt

  unfoldable pub apply_output : ℕ → ℕ → List ℕ → (ℕ → Option ℕ) → Tracked → Op env (Unit {0})
  unfolding confirm_output retire_output
  apply_output parent_key_id height reverted_kernels api_outputs t w =
      apply_found parent_key_id height reverted_kernels t.commitment (api_outputs t.commitment)
        (get_output env t.key_id t.mmr_index w).0 w

  -- `(now - t).to_std().ok()`
  abbrev since : Option ℕ → Option ℕ
  since none = none
  since (some t) = if leb t env.now then some (env.now - t) else none

  unfoldable pub revert_tx : TxLogEntry → TxLogEntry
  revert_tx tx = record tx {
    tx_type = tx_reverted;
    reverted_after = since tx.confirmation_ts;
    confirmed = false;
  }

  -- The entries whose kernels are gone.
  unfoldable pub save_reverted : List ℕ → ℕ → Op env (Unit {0})
  unfolding revert_tx
  save_reverted reverted_kernels parent_key_id w =
      for_each
        (map revert_tx (
          filter (λ tx. contains reverted_kernels tx.id && (tx.parent_key_id == parent_key_id))
            (tx_log_iter env w)))
        (λ tx. save_tx_log_entry env tx parent_key_id) w

  unfoldable pub apply_api_outputs :
      List Tracked → (ℕ → Option ℕ) → List ℕ → ℕ → ℕ → Op env (Unit {0})
  unfolding apply_output save_reverted
  apply_api_outputs wallet_outputs api_outputs reverted_kernels height parent_key_id w =
      if ltb height (last_confirmed_height_for_parent env parent_key_id w)
      then (ok tt, w)
      else in_batch env
          (do
            for_each wallet_outputs (apply_output parent_key_id height reverted_kernels api_outputs)
            save_reverted reverted_kernels parent_key_id
            save_last_confirmed_height env parent_key_id height)
          w

  abbrev pub is_old_unconfirmed : ℕ → OutputData → Bool
  is_old_unconfirmed height out =
      is_status out.status unconfirmed
      && (ltb 0 out.height && (ltb out.height (height - 50) && out.is_coinbase))

  unfoldable pub clean_old_unconfirmed : ℕ → Op env (Unit {0})
  clean_old_unconfirmed height w =
      if ltb height 50
      then (ok tt, w)
      else in_batch env
          (for_each (map (λ out. out.key_id) (filter (is_old_unconfirmed height) (iter env w)))
            (λ id. delete env id none))
          w

  unfoldable pub refresh_output_state : NodeClient → ℕ → ℕ → Bool → Op env (Unit {0})
  unfolding apply_api_outputs clean_old_unconfirmed find_reverted_kernels
  refresh_output_state node height parent_key_id update_all w =
      (do
        wallet_outputs ← lift (map_wallet_outputs env w parent_key_id update_all)
        api_outputs ← lift (node.get_outputs_from_node (map (λ t. t.commitment) wallet_outputs))
        reverted_kernels ←
            lift (find_reverted_kernels node wallet_outputs api_outputs parent_key_id w)
        apply_api_outputs wallet_outputs api_outputs reverted_kernels height parent_key_id
        clean_old_unconfirmed height)
        w

  unfoldable pub refresh_outputs : NodeClient → ℕ → Bool → Op env (Unit {0})
  unfolding refresh_output_state
  refresh_outputs node parent_key_id update_all = do
    height ← lift node.get_chain_tip
    refresh_output_state node height parent_key_id update_all
