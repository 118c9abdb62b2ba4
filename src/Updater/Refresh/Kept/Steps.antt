-- ===== src/Updater/Refresh/Kept/Steps.antt =====
-- What a refresh does to the outputs (`apply_api_outputs` of libwallet/src/internal/updater.rs).
use grin_wallet.Prelude.{
  ℕ, ◌≡◌, refl, ◌⊎◌, inl, inr, true, not, Option, none, some, List, ◌&&◌, arith, Bool-cases,
  Option-cases, ltb,
}
use grin_wallet.Prelude.Result.{Result, ok, not_found, err, panic, stuck}
use grin_wallet.Prelude.Exec.{for_each, lift, batched, ◌>>◌}
use grin_wallet.Prelude.Keeps.{Keeps, Keeps->>=, Keeps-batched, Keeps-for_each}
use grin_wallet.Output.{OutputData, unconfirmed, is_status, mark_unspent, mark_spent, mark_reverted}
use grin_wallet.TxLog.{TxLogEntry}
use grin_wallet.Backend.{
  Env, Wallet, save, next_tx_log_id, save_tx_log_entry, id_bytes, or_zero, get_output, output_key,
  save_last_confirmed_height, last_confirmed_height_for_parent,
}
use grin_wallet.Updater.Cancel.Restored.{key_of, at_key, Keyed}
use grin_wallet.Updater.Query.{Tracked}
use grin_wallet.Updater.Refresh.{
  log_coinbase, confirm_tx, confirm_output, retire_output, apply_output, apply_api_outputs,
  save_reverted, holds_id, apply_found,
}
use grin_wallet.Updater.Refresh.Kept.{
  AllKept, Refreshed, Refreshed-preorder, same_outputs, saved, confirmed-IsKept, spent-IsKept,
  reverted-IsKept,
}

module _ (env : Env) where
  confirm_tx-outputs :
      (parent_key_id : ℕ) (o : OutputData) (w : Wallet env)
      → (confirm_tx env parent_key_id o w).1.outputs ≡ w.outputs
  unfolding confirm_tx save_tx_log_entry
  confirm_tx-outputs parent_key_id o w = ground arith

  module _ (parent_key_id height c at_height : ℕ) (o : OutputData) (w : Wallet env) where
    abbrev IsShaped : Wallet env → Type 0
    IsShaped w' =
        (w'.outputs ≡ w.outputs)
        ⊎ ((e : Option ℕ) × (w'.outputs
              ≡ env.put w.outputs (key_of o)
                  (mark_unspent (record o { height = at_height; tx_log_entry = e }))))

    coinbase-shape :
        (r : Result ℕ)
        → env.coinbase_excess o.value c ≡ r
        → (o.is_coinbase && is_status o.status unconfirmed) ≡ true
        → IsShaped (confirm_output env parent_key_id height c at_height o w).1
    unfolding confirm_output log_coinbase confirm_tx save next_tx_log_id save_tx_log_entry
        mark_unspent
    coinbase-shape (ok x) e b =
        inr
          (some (or_zero env (env.get w.tx_log_ids (id_bytes parent_key_id))), ground (arith, e, b))
    coinbase-shape (err x) e b = inl (ground (arith, e, b))
    coinbase-shape panic e b = inl (ground (arith, e, b))
    coinbase-shape stuck e b = inl (ground (arith, e, b))

    confirm_output-shape : IsShaped (confirm_output env parent_key_id height c at_height o w).1
    unfolding confirm_output confirm_tx save save_tx_log_entry mark_unspent
    confirm_output-shape = elim (Bool-cases (o.is_coinbase && is_status o.status unconfirmed)) [
      | inl b ↦ coinbase-shape (env.coinbase_excess o.value c) refl b
      | inr b ↦ inr (o.tx_log_entry, ground (arith, b))
    ]

  confirm_output-keeps :
      (parent_key_id height c at_height : ℕ) (o : OutputData) (w : Wallet env)
      → at_key env w (key_of o) ≡ some o
      → Refreshed env w (confirm_output env parent_key_id height c at_height o w).1
  confirm_output-keeps parent_key_id height c at_height o w at =
      elim (confirm_output-shape parent_key_id height c at_height o w) [
        | inl e ↦ same_outputs env w (confirm_output env parent_key_id height c at_height o w).1 e
        | inr (t, e) ↦
            saved env w (confirm_output env parent_key_id height c at_height o w).1 o
              (mark_unspent (record o { height = at_height; tx_log_entry = t })) at e
              (confirmed-IsKept o at_height t)
      ]

  retire_output-keeps :
      (ids : List ℕ) (o : OutputData) (w : Wallet env)
      → at_key env w (key_of o) ≡ some o
      → Refreshed env w (retire_output env ids o w).1
  unfolding retire_output save mark_reverted mark_spent
  retire_output-keeps ids o w at =
      elim (Bool-cases (not o.is_coinbase && holds_id ids o.tx_log_entry)) [
        | inl e ↦
            saved env w (retire_output env ids o w).1 o (mark_reverted o) at (ground (arith, e))
              (reverted-IsKept o)
        | inr e ↦
            saved env w (retire_output env ids o w).1 o (mark_spent o) at (ground (arith, e))
              (spent-IsKept o)
      ]

  module _ (parent_key_id height : ℕ) (ids : List ℕ) (api : ℕ → Option ℕ) (t : Tracked) where
    found-keeps :
        (w : Wallet env) (r : Option ℕ) (o : OutputData)
        → at_key env w (key_of o) ≡ some o
        → Refreshed env w (apply_found env parent_key_id height ids t.commitment r (ok o) w).1
    found-keeps w none o at = retire_output-keeps ids o w at
    found-keeps w (some h) o at = confirm_output-keeps parent_key_id height t.commitment h o w at

    missing-keeps :
        (w : Wallet env) (r : Option ℕ)
        → Refreshed env w
            (apply_found env parent_key_id height ids t.commitment r (err not_found) w).1
    missing-keeps w none = (Refreshed-preorder env).reflexive w
    missing-keeps w (some h) = (Refreshed-preorder env).reflexive w

    apply_output-Keeps : Keeps (Refreshed env) (apply_output env parent_key_id height ids api t)
    unfolding apply_output get_output
    apply_output-Keeps w keyed =
        elim (Option-cases (env.get w.outputs (output_key t.key_id t.mmr_index))) [
          | inl e ↦ rw e (missing-keeps w (api t.commitment) keyed)
          | inr (o, e) ↦ rw e (found-keeps w (api t.commitment) o (rw (keyed _ o e) e) keyed)
        ]

  save_tx_log_entry-Keeps :
      (parent_key_id : ℕ) (tx : TxLogEntry)
      → Keeps (Refreshed env) (save_tx_log_entry env tx parent_key_id)
  unfolding save_tx_log_entry
  save_tx_log_entry-Keeps parent_key_id tx w =
      same_outputs env w (save_tx_log_entry env tx parent_key_id w).1 refl

  save_reverted-Keeps :
      (ids : List ℕ) (parent_key_id : ℕ)
      → Keeps (Refreshed env) (save_reverted env ids parent_key_id)
  unfolding save_reverted
  save_reverted-Keeps ids parent_key_id w =
      Keeps-for_each (Refreshed env) (Refreshed-preorder env) _ _
        (save_tx_log_entry-Keeps parent_key_id) w

  -- The answer of the node, whatever it is and whether it is applied or fails, leaves each output
  -- of a wallet whose outputs stand under their own keys under its key, with its account, value and
  -- kind; one that was locked or spent is locked or spent after it, and one that was spent is spent;
  -- and the outputs still stand under their own keys.
  pub apply_api_outputs-AllKept :
      (ts : List Tracked) (api : ℕ → Option ℕ) (ids : List ℕ) (height parent_key_id : ℕ)
      (w : Wallet env)
      → Keyed env w
      → Keyed env (apply_api_outputs env ts api ids height parent_key_id w).1
        × AllKept env w (apply_api_outputs env ts api ids height parent_key_id w).1
  unfolding apply_api_outputs save_last_confirmed_height
  apply_api_outputs-AllKept ts api ids height parent_key_id w =
      elim (Bool-cases (ltb height (last_confirmed_height_for_parent env parent_key_id w))) [
        | inl e ↦ rw e ((Refreshed-preorder env).reflexive w)
        | inr e ↦
            let m = for_each ts (apply_output env parent_key_id height ids api) in
            let n = save_reverted env ids parent_key_id in
            let k = save_last_confirmed_height env parent_key_id height in
            rw e (
              Keeps->>= (Refreshed env) (Refreshed-preorder env) (lift env.unlocked)
                (λ _. batched (m >> (n >> k))) (λ v. (Refreshed-preorder env).reflexive v)
                (λ _. Keeps-batched (Refreshed env) (Refreshed-preorder env) (m >> (n >> k)) (
                  Keeps->>= (Refreshed env) (Refreshed-preorder env) m (λ _. n >> k)
                    (Keeps-for_each (Refreshed env) (Refreshed-preorder env) ts _
                      (apply_output-Keeps parent_key_id height ids api))
                    (λ _.
                      Keeps->>= (Refreshed env) (Refreshed-preorder env) n (λ _. k)
                        (save_reverted-Keeps ids parent_key_id)
                        (λ _ v. same_outputs env v (k v).1 refl))))
                w)
      ]
