-- ===== src/Examples/Wallets.antt =====
-- The theorems on whole wallets at concrete inputs.
use grin_wallet.Prelude.{
  ℕ, ◌+◌, ◌≡◌, ◌≢◌, ◌≤◌, ◌<◌, ◌⊎◌, ◌%◌, ◌/◌, refl, inl, inr, Bool-cases, false, not, none, some,
  Option, List, [], ◌∷◌, All, map, filter, arith, some_injective, u64_mod, ap, sym, ◌∙◌, any,
}
use grin_wallet.Prelude.Result.{ok, err, transaction_doesnt_exist}
use grin_wallet.Bytes.{Bytes, bytes_eq, bytes_eq→eq, be_bytes}
use grin_wallet.Output.{OutputData}
use grin_wallet.Store.Assoc.{lookup, values}
use grin_wallet.TxLog.{TxLogEntry, new_tx_log_entry}
use grin_wallet.Backend.{
  output_key, iter, tx_log_iter, current_child_index, last_confirmed_height_for_parent, next_child,
  save_child_index, to_key_u64, save, delete, save_tx_log_entry,
}
use grin_wallet.Selection.Change.{
  ChangeOutput, new_change, split_change, change_outputs, build_change,
}
use grin_wallet.Selection.Change.Keys.{children, change_outputs-children}
use grin_wallet.Selection.Change.Balance.{amounts, build_change-amounts}
use grin_wallet.Updater.Cancel.{cancel_tx}
use grin_wallet.Updater.Cancel.Restored.{Keyed, key_of}
use grin_wallet.Updater.Cancel.Whole.{IsCancelled, cancel_tx-IsCancelled, cancel_tx_unchanged}
use grin_wallet.Updater.Query.{listed_txs, retrieved_outputs, with_commits, Tracked}
use grin_wallet.Prelude.Sort.{sort_by, insert_by}
use grin_wallet.Prelude.{add64}
use grin_wallet.Selection.{eligible_outputs}
use grin_wallet.Selection.Cover.{worth}
use grin_wallet.Updater.Info.{retrieve_info}
use grin_wallet.Updater.Info.Balance.{
  account, is_ignored, retrieve_info_total, spendable-eq-eligible,
}
use grin_wallet.Updater.Refresh.{apply_api_outputs}
use grin_wallet.Updater.Refresh.Height.{apply_api_outputs-height}
use grin_wallet.Updater.Refresh.Kept.{AllKept}
use grin_wallet.Updater.Refresh.Kept.Steps.{apply_api_outputs-AllKept}
use grin_wallet.Updater.Filter.{QueryArgs, advanced_filtering}
use grin_wallet.Updater.Filter.Answer.{created_until, creation_bounds_mixed_up}
use grin_wallet.Examples.{no_query, env, wallet, free, bound, change, sent}

pub keyed_row :
    (k k' : Bytes) (o o' : OutputData) (t : List (Bytes × OutputData))
    → key_of o ≡ k
    → ((j : Bytes) (p : OutputData) → lookup t j ≡ some p → key_of p ≡ j)
    → lookup ((k, o) ∷ t) k' ≡ some o'
    → key_of o' ≡ k'
unfolding lookup
keyed_row k k' o o' t e h f = elim (Bool-cases (bytes_eq k k')) [
  | inl b ↦ ap key_of (sym (some_injective (rw b at f))) ∙ e ∙ bytes_eq→eq k k' b
  | inr b ↦ h k' o' (rw b at f)
]

pub no_rows : (j : Bytes) (p : OutputData) → lookup [] j ≡ some p → key_of p ≡ j
unfolding lookup
no_rows j p e = cc

pub wallet-Keyed : Keyed env wallet
wallet-Keyed k o =
    keyed_row (output_key 11 none) k free o
      ((output_key 12 none, bound) ∷ (output_key 13 none, change) ∷ []) refl
      (λ j p.
        keyed_row (output_key 12 none) j bound p ((output_key 13 none, change) ∷ []) refl
          (λ i q. keyed_row (output_key 13 none) i change q [] refl no_rows))

cancelled : (cancel_tx env 1 (some 3) none wallet).0 ≡ ok tt
unfolding cancel_tx output_key to_key_u64 be_bytes bytes_eq listed_txs values any filter sort_by
    insert_by with_commits retrieved_outputs new_tx_log_entry save delete save_tx_log_entry
cancelled = refl

cancel_tx-IsCancelled_example :
    (tx : TxLogEntry) × (listed_txs (tx_log_iter env wallet) (some 3) none (some 1) false ≡ tx ∷ [])
    × IsCancelled env 1 tx wallet (cancel_tx env 1 (some 3) none wallet).1
cancel_tx-IsCancelled_example =
    cancel_tx-IsCancelled env 1 (some 3) none wallet wallet-Keyed cancelled

missing : (cancel_tx env 1 (some 4) none wallet).0 ≡ err transaction_doesnt_exist
unfolding cancel_tx listed_txs values filter any sort_by new_tx_log_entry
missing = refl

missing-ne-ok : (cancel_tx env 1 (some 4) none wallet).0 ≢ ok tt
missing-ne-ok e = cc (missing, e)

cancel_tx_unchanged_example : (cancel_tx env 1 (some 4) none wallet).1 ≡ wallet
cancel_tx_unchanged_example = cancel_tx_unchanged env 1 (some 4) none wallet missing-ne-ok

fits : worth (iter env wallet) < u64_mod
unfolding values any output_key be_bytes bytes_eq
fits = omega arith

retrieve_info_total_example :
    ((retrieve_info env wallet 1 10).total
        + (retrieve_info env wallet 1 10).amount_awaiting_finalization
        + (retrieve_info env wallet 1 10).amount_locked
        + (retrieve_info env wallet 1 10).amount_reverted
      ≡ worth (filter (λ o. not (is_ignored o)) (account env wallet 1 10)))
    × ((retrieve_info env wallet 1 10).total
        ≡ (retrieve_info env wallet 1 10).amount_currently_spendable
          + (retrieve_info env wallet 1 10).amount_awaiting_confirmation
          + (retrieve_info env wallet 1 10).amount_immature)
retrieve_info_total_example = retrieve_info_total env wallet 1 10 fits

no_locks :
    All
      (λ o. o.is_coinbase ≡ false → o.lock_height ≤ last_confirmed_height_for_parent env 1 wallet)
      (iter env wallet)
unfolding values any output_key be_bytes bytes_eq
no_locks = (λ e. omega arith, (λ e. omega arith, (λ e. omega arith, tt)))

spendable-eq-eligible_example :
    (retrieve_info env wallet 1 10).amount_currently_spendable
    ≡ worth
        (eligible_outputs (iter env wallet) (last_confirmed_height_for_parent env 1 wallet) 10 1)
spendable-eq-eligible_example = spendable-eq-eligible env wallet 1 10 fits (omega arith) no_locks

next_index : current_child_index env 1 wallet ≡ 0
unfolding current_child_index lookup
next_index = refl

change_outputs-children_example :
    (cs : List ChangeOutput) × ((change_outputs env 2 1 3 wallet).0 ≡ ok cs)
    × (map (λ c. c.id) cs ≡ children env 1 (current_child_index env 1 wallet) 3)
    × (current_child_index env 1 (change_outputs env 2 1 3 wallet).1
        ≡ current_child_index env 1 wallet + 3)
change_outputs-children_example =
    change_outputs-children env 2 1 3 wallet refl (omega (arith, next_index))

-- A change of 11 in four outputs of 2 each, with a remainder of 3 that is not less than 2.
abbrev paid_out : List ChangeOutput
paid_out = new_change 2 100 ∷ new_change 2 101 ∷ new_change 2 102 ∷ new_change 3 103 ∷ []

lossy : (build_change env 11 4 wallet).0 ≡ ok paid_out
unfolding build_change split_change next_child current_child_index save_child_index lookup be_bytes
    bytes_eq add64
lossy = refl

build_change-amounts_example :
    (11 % 4 < 11 / 4 → amounts paid_out ≡ 11) × (11 / 4 ≤ 11 % 4 → amounts paid_out < 11)
build_change-amounts_example =
    build_change-amounts env 11 4 wallet paid_out (omega arith) (omega arith) lossy

apply_api_outputs-height_example :
    ((apply_api_outputs env [] (λ c. none) [] 50 1 wallet).1 ≡ wallet)
    ⊎ ((last_confirmed_height_for_parent env 1 wallet ≤ 50)
        × (last_confirmed_height_for_parent env 1
              (apply_api_outputs env [] (λ c. none) [] 50 1 wallet).1
            ≡ 50))
apply_api_outputs-height_example = apply_api_outputs-height env [] (λ c. none) [] 50 1 wallet

abbrev tracked : List Tracked
tracked =
    record {
      commitment = 12;
      key_id = 12;
      mmr_index = none;
      tx_log_entry = some 3;
      was_unspent = false;
    }
    ∷ []

apply_api_outputs-AllKept_example :
    Keyed env (apply_api_outputs env tracked (λ c. none) [] 50 1 wallet).1
    × AllKept env wallet (apply_api_outputs env tracked (λ c. none) [] 50 1 wallet).1
apply_api_outputs-AllKept_example =
    apply_api_outputs-AllKept env tracked (λ c. none) [] 50 1 wallet wallet-Keyed

abbrev early : QueryArgs
early = record no_query { min_confirmed_timestamp = some 90 }

creation_bounds_mixed_up_example :
    ((u : Option ℕ)
      → advanced_filtering (sent ∷ []) (some 1) (record early { max_creation_timestamp = u })
        ≡ advanced_filtering (sent ∷ []) (some 1) early)
    × ((tx : TxLogEntry) (u : ℕ)
        → u < tx.creation_ts
        → advanced_filtering (tx ∷ []) none (created_until u) ≡ tx ∷ [])
    × ((v : ℕ)
        → early.min_confirmed_timestamp ≡ some v
        → All (λ tx. tx.creation_ts ≤ v) (advanced_filtering (sent ∷ []) (some 1) early))
creation_bounds_mixed_up_example = creation_bounds_mixed_up (sent ∷ []) (some 1) early
