-- ===== src/Updater/Refresh/Kept.antt =====
-- What a refresh may do to an output, as a relation between wallets (`apply_api_outputs` of libwallet/src/internal/updater.rs).
pub mod Steps
use mathlib.Core.Path.{subst}
use grin_wallet.Prelude.{
  ℕ, ◌≡◌, refl, sym, ◌∙◌, ap, ◌⊎◌, inl, inr, true, not, Option, none, some, List, ◌&&◌,
  if◌then◌else◌, arith, Bool-cases, Option-cases, some_injective, ltb,
}
use grin_wallet.Prelude.Result.{Result, ok, not_found, err, panic, stuck}
use grin_wallet.Prelude.Exec.{for_each, lift, batched, ◌>>◌}
use grin_wallet.Prelude.Keeps.{IsPreorder, Keeps, Keeps->>=, Keeps-batched, Keeps-for_each}
use grin_wallet.Bytes.{Bytes, bytes_eq, bytes_eq→eq}
use grin_wallet.Output.{
  OutputData, unconfirmed, spent, is_status, mark_unspent, mark_spent, mark_reverted,
}
use grin_wallet.Output.Lifecycle.{is_committed}
use grin_wallet.TxLog.{TxLogEntry}
use grin_wallet.Backend.{
  Env, Wallet, save, next_tx_log_id, save_tx_log_entry, id_bytes, or_zero, get_output, output_key,
  save_last_confirmed_height, last_confirmed_height_for_parent,
}
use grin_wallet.Updater.Cancel.Restored.{key_of, at_key, Keyed}
use grin_wallet.Updater.Query.{Tracked}
use grin_wallet.Updater.Refresh.{
  log_coinbase, confirm_tx, confirm_output, retire_output, apply_output, apply_api_outputs,
  save_reverted, holds_id, apply_found,
}

-- The same output: its key, its value and its kind. A status that binds it stays binding.
pub record IsKept (o o' : OutputData) : Type 0 where
  pub same_root : o'.root_key_id ≡ o.root_key_id
  pub same_key : key_of o' ≡ key_of o
  pub same_value : o'.value ≡ o.value
  pub same_kind : o'.is_coinbase ≡ o.is_coinbase
  pub committed : is_committed o.status ≡ true → is_committed o'.status ≡ true
  pub still_spent : o.status ≡ spent → o'.status ≡ spent

IsKept-refl : (o : OutputData) → IsKept o o
IsKept-refl o = record {
  same_root = refl;
  same_key = refl;
  same_value = refl;
  same_kind = refl;
  committed = λ c. c;
  still_spent = λ s. s;
}

IsKept-trans : (o p q : OutputData) → IsKept o p → IsKept p q → IsKept o q
IsKept-trans o p q a b = record {
  same_root = b.same_root ∙ a.same_root;
  same_key = b.same_key ∙ a.same_key;
  same_value = b.same_value ∙ a.same_value;
  same_kind = b.same_kind ∙ a.same_kind;
  committed = λ c. b.committed (a.committed c);
  still_spent = λ s. b.still_spent (a.still_spent s);
}

pub confirmed-IsKept :
    (o : OutputData) (h : ℕ) (e : Option ℕ)
    → IsKept o (mark_unspent (record o { height = h; tx_log_entry = e }))
unfolding mark_unspent
confirmed-IsKept o h e = record {
  same_root = refl;
  same_key = refl;
  same_value = refl;
  same_kind = refl;
  committed = λ c. ground (arith, c);
  still_spent = λ s. ground (arith, s);
}

pub spent-IsKept : (o : OutputData) → IsKept o (mark_spent o)
unfolding mark_spent
spent-IsKept o = record {
  same_root = refl;
  same_key = refl;
  same_value = refl;
  same_kind = refl;
  committed = λ c. ground (arith, c);
  still_spent = λ s. ground (arith, s);
}

pub reverted-IsKept : (o : OutputData) → IsKept o (mark_reverted o)
unfolding mark_reverted
reverted-IsKept o = record {
  same_root = refl;
  same_key = refl;
  same_value = refl;
  same_kind = refl;
  committed = λ c. ground (arith, c);
  still_spent = λ s. ground (arith, s);
}

module _ (env : Env) where
  -- Every output is still there, and is kept.
  abbrev pub AllKept : Wallet env → Wallet env → Type 0
  AllKept w w' =
      (k : Bytes) (o : OutputData)
      → at_key env w k ≡ some o
      → (o' : OutputData) × (at_key env w' k ≡ some o') × IsKept o o'

  abbrev pub Refreshed : Wallet env → Wallet env → Type 0
  Refreshed w w' = Keyed env w → Keyed env w' × AllKept w w'

  pub Refreshed-preorder : IsPreorder Refreshed
  Refreshed-preorder = record {
    reflexive = λ w keyed. (keyed, λ k o e. (o, e, IsKept-refl o));
    transitive = λ w v u f g keyed.
        let (kv, fv) = f keyed in
        let (ku, gu) = g kv in
        (
          ku,
          λ k o e.
              let (p, ep, np) = fv k o e in
              let (q, eq, nq) = gu k p ep in (q, eq, IsKept-trans o p q np nq),
        );
  }

  pub same_outputs : (w w' : Wallet env) → w'.outputs ≡ w.outputs → Refreshed w w'
  same_outputs w w' e keyed = (
    λ k o f. keyed k o (sym (ap (λ t. env.get t k) e) ∙ f),
    λ k o f. (o, ap (λ t. env.get t k) e ∙ f, IsKept-refl o),
  )

  -- One output is written over itself.
  pub saved :
      (w w' : Wallet env) (o o' : OutputData)
      → at_key env w (key_of o) ≡ some o
      → w'.outputs ≡ env.put w.outputs (key_of o) o'
      → IsKept o o'
      → Refreshed w w'
  saved w w' o o' at e kept keyed =
      let at' : (k : Bytes)
          → at_key env w' k ≡ (if bytes_eq (key_of o) k then some o' else at_key env w k) =
        λ k. ap (λ t. env.get t k) e ∙ env.get-put w.outputs (key_of o) k o' in
      (
        λ k p f. elim (Bool-cases (bytes_eq (key_of o) k)) [
          | inl c ↦ ground (arith, at' k, bytes_eq→eq (key_of o) k c, kept.same_key)
          | inr c ↦ ground (arith, at' k, keyed k p)
        ],
        λ k p f. elim (Bool-cases (bytes_eq (key_of o) k)) [
          | inl c ↦ (
            o',
            rw (at' k) (rw c refl),
            subst (λ q. IsKept q o')
                (some_injective
                  (sym at ∙ ap (λ j. at_key env w j) (bytes_eq→eq (key_of o) k c) ∙ f))
                kept,
          )
          | inr c ↦ (p, rw (at' k) (rw c f), IsKept-refl p)
        ],
      )
