-- ===== src/Exchange/Lock/Changed.antt =====
-- The change outputs after the locking of outputs (`lock_tx_context` of
-- libwallet/src/internal/selection.rs).
use mathlib.Core.Path.{subst}
use mathlib.Core.List.{Memᴰ}
use mathlib.Core.List.Memᴰ
use grin_wallet.Prelude.{
  ℕ, ◌+◌, ◌≡◌, refl, false, sym, ◌∙◌, ap, ◌⊎◌, inl, inr, Option, none, some, List, [], ◌∷◌,
  Bool-cases, add64,
}
use grin_wallet.Prelude.Result.{ok, ok_injective}
use grin_wallet.Prelude.Exec.{lift}
use grin_wallet.Prelude.Triple.{Triple, Triple->>=}
use grin_wallet.Bytes.{Bytes, bytes_eq, bytes_eq→eq, bytes_eq_refl}
use grin_wallet.Output.{OutputData, unconfirmed}
use grin_wallet.Libtx.{Libtx}
use grin_wallet.Backend.{Env, Wallet, save, output_key}
use grin_wallet.Updater.Cancel.Restored.{Keyed}
use grin_wallet.Exchange.{Host, unwrapped}
use grin_wallet.Exchange.Lock.{ChangeCommit, commit_at, save_changes, change_data}
use grin_wallet.Exchange.Lock.Locked.{Now, SameOrNow, get_saved, save-Keyed}

unwrapped-some : (o : Option ChangeCommit) (c : ChangeCommit) → unwrapped o ≡ ok c → o ≡ some c
unwrapped-some none c e = cc
unwrapped-some (some d) c e = ap some (ok_injective e)

module _ (env : Env) (w0 : Wallet env) (log_id : ℕ) where
  module _ (lib : Libtx) (host : Host lib) (parent_key_id height : ℕ)
      (commits : List ChangeCommit) where
    -- The output of a change that is to come, with its commitment and amount and the number of the
    -- log entry.
    pub record IsPending (id : ℕ) (c : ChangeCommit) (o : OutputData) : Type 0 where
      pub account : o.root_key_id ≡ parent_key_id
      pub own_key : o.key_id ≡ id
      pub child : o.n_child ≡ env.last_path_index id
      pub no_index : o.mmr_index ≡ none
      pub committed : o.commit ≡ c.commit
      pub worth : o.value ≡ c.change_amount
      pub waits : o.status ≡ unconfirmed
      pub at_height : o.height ≡ height
      pub not_locked : o.lock_height ≡ 0
      pub no_reward : o.is_coinbase ≡ false
      pub of_entry : o.tx_log_entry ≡ some log_id

    change_data-IsPending :
        (id : ℕ) (c : ChangeCommit)
        → IsPending id c (change_data env lib host parent_key_id height log_id id c)
    change_data-IsPending id c = record {
      account = refl;
      own_key = refl;
      child = refl;
      no_index = refl;
      committed = refl;
      worth = refl;
      waits = refl;
      at_height = refl;
      not_locked = refl;
      no_reward = refl;
      of_entry = refl;
    }

    -- The key of an identifier holds the change output of the identifier.
    abbrev pub HasChange : Wallet env → ℕ → Type 0
    HasChange w id =
        (c : ChangeCommit) × (o : OutputData) × (commit_at id commits ≡ some c)
        × (env.get w.outputs (output_key id none) ≡ some o)
        × IsPending id c o

    -- A key that belongs to a change output holds that output.
    abbrev pub IsChange : Wallet env → Bytes → Type 0
    IsChange w k = (id : ℕ) × (k ≡ output_key id none) × HasChange w id

    -- What holds of a key that no change output belongs to.
    abbrev pub OrChange : (Bytes → Option OutputData → Type 0) → Wallet env → Bytes → Type 0
    OrChange X w k = X k (env.get w.outputs k) ⊎ IsChange w k

    change_saved :
        (w : Wallet env) (id : ℕ) (c : ChangeCommit)
        → commit_at id commits ≡ some c
        → HasChange (save env (change_data env lib host parent_key_id height log_id id c) w).1 id
    change_saved w id c at =
        let new = change_data env lib host parent_key_id height log_id id c in
        (
          c,
          new,
          at,
          rw (bytes_eq_refl (output_key id none)) at
              (get_saved env w0 log_id w new (output_key id none)),
          change_data-IsPending id c,
        )

    change_step :
        (X : Bytes → Option OutputData → Type 0) (w : Wallet env) (id : ℕ) (c : ChangeCommit)
        (k : Bytes)
        → commit_at id commits ≡ some c
        → OrChange X w k
        → OrChange X (save env (change_data env lib host parent_key_id height log_id id c) w).1 k
    change_step X w id c k at h =
        let new = change_data env lib host parent_key_id height log_id id c in
        elim (Bool-cases (bytes_eq (output_key id none) k)) [
          | inl b ↦ inr (id, sym (bytes_eq→eq (output_key id none) k b), change_saved w id c at)
          | inr b ↦
              let after = rw b at (get_saved env w0 log_id w new k) in
              elim h [
                | inl x ↦ inl (subst (X k) (sym after) x)
                | inr (i, e, (d, o, f, g, p)) ↦
                    let same =
                      ap (λ j. env.get (save env new w).1.outputs j) (sym e)
                      ∙ after
                      ∙ ap (λ j. env.get w.outputs j) e in
                    inr (i, e, (d, o, f, same ∙ g, p))
              ]
        ]

    -- The outputs after the locking: each is under its own key, each key holds what it held, the
    -- output that it held, locked, or a change output, and the inputs are not what they were.
    pub record IsLocked (ids : List (ℕ × Option ℕ × ℕ)) (w : Wallet env) : Type 0 where
      pub keyed : Keyed env w
      pub all : (k : Bytes) → OrChange (SameOrNow env w0 log_id) w k
      pub inputs :
          (i : ℕ × Option ℕ × ℕ) → Memᴰ i ids → OrChange (Now env w0 log_id) w (output_key i.0 i.1)

    -- What the save of one change output keeps, the loop over the change outputs keeps.
    save_changes-Triple :
        (P : Wallet env → Type 0)
        → ((id : ℕ) (c : ChangeCommit) (w : Wallet env)
            → commit_at id commits ≡ some c
            → P w
            → P (save env (change_data env lib host parent_key_id height log_id id c) w).1)
        → (outs : List (ℕ × Option ℕ × ℕ)) (n : ℕ × ℕ)
        → Triple P
            (save_changes env lib host parent_key_id height log_id commits n outs)
            (λ _ w. P w)
    unfolding save_changes
    save_changes-Triple P step [] (n, a) w p r e = p
    save_changes-Triple P step ((id, i, v) ∷ outs) (n, a) w p r e =
        let At = λ (c : ChangeCommit) (w : Wallet env). P w × (commit_at id commits ≡ some c) in
        Triple->>= P At (λ _ w. P w) (lift (unwrapped (commit_at id commits))) _
          (λ w p c e. (p, unwrapped-some (commit_at id commits) c e))
          (λ c.
            let new = change_data env lib host parent_key_id height log_id id c in
            Triple->>= (At c) (λ _ w. P w) (λ _ w. P w) (save env new) _
              (λ w p u e. step id c w p.1 p.0)
              (λ u. save_changes-Triple P step outs (n + 1, add64 a c.change_amount)))
          w p r e

    change_step-IsLocked :
        (ids : List (ℕ × Option ℕ × ℕ)) (id : ℕ) (c : ChangeCommit) (w : Wallet env)
        → commit_at id commits ≡ some c
        → IsLocked ids w
        → IsLocked ids (save env (change_data env lib host parent_key_id height log_id id c) w).1
    change_step-IsLocked ids id c w at p =
        let new = change_data env lib host parent_key_id height log_id id c in
        record {
          keyed = save-Keyed env w0 log_id w new p.keyed;
          all = λ k. change_step (SameOrNow env w0 log_id) w id c k at (p.all k);
          inputs =
              λ i m. change_step (Now env w0 log_id) w id c (output_key i.0 i.1) at (p.inputs i m);
        }

    pub save_changes-IsLocked :
        (ids outs : List (ℕ × Option ℕ × ℕ)) (n : ℕ × ℕ)
        → Triple
            (IsLocked ids)
            (save_changes env lib host parent_key_id height log_id commits n outs)
            (λ _ w. IsLocked ids w)
    save_changes-IsLocked ids = save_changes-Triple (IsLocked ids) (change_step-IsLocked ids)

    -- What a key holds is a change output, or nothing is said.
    still_changed :
        (k : Bytes) (id : ℕ) (c : ChangeCommit) (w : Wallet env)
        → commit_at id commits ≡ some c
        → IsChange w k
        → IsChange (save env (change_data env lib host parent_key_id height log_id id c) w).1 k
    still_changed k id c w at h = elim (change_step (λ k o. ⊥) w id c k at (inr h)) [
      | inl x ↦ absurd x
      | inr y ↦ y
    ]

    -- Every change output is stored.
    abbrev pub AllChanged : List (ℕ × Option ℕ × ℕ) → Wallet env → Type 0
    AllChanged outs w = (i : ℕ × Option ℕ × ℕ) → Memᴰ i outs → IsChange w (output_key i.0 none)

    pub save_changes-AllChanged :
        (outs : List (ℕ × Option ℕ × ℕ)) (n : ℕ × ℕ)
        → Triple
            (λ w. Unit {0})
            (save_changes env lib host parent_key_id height log_id commits n outs)
            (λ _ w. AllChanged outs w)
    unfolding save_changes
    save_changes-AllChanged [] (n, a) w p r e = λ i m. elim m [ ]
    save_changes-AllChanged ((id, i, v) ∷ outs) (n, a) w p r e =
        let Q = λ (r : ℕ × ℕ) (w : Wallet env). AllChanged ((id, i, v) ∷ outs) w in
        let At = λ (c : ChangeCommit) (w : Wallet env). commit_at id commits ≡ some c in
        let K = λ (w : Wallet env). IsChange w (output_key id none) in
        Triple->>= (λ w. Unit {0}) At Q (lift (unwrapped (commit_at id commits))) _
          (λ w p c e. unwrapped-some (commit_at id commits) c e)
          (λ c.
            let new = change_data env lib host parent_key_id height log_id id c in
            Triple->>= (At c) (λ _ w. K w) Q (save env new) _
              (λ w at u e. (id, refl, change_saved w id c at))
              (λ u w k b e.
                let m : ℕ × ℕ = (n + 1, add64 a c.change_amount) in
                let after =
                  (save_changes env lib host parent_key_id height log_id commits m outs w).1 in
                let first =
                  save_changes-Triple K (still_changed (output_key id none)) outs m w k b e in
                let rest = save_changes-AllChanged outs m w tt b e in
                λ j mem. elim (Memᴰ.cases_cons mem) [
                  | inl same ↦ subst (λ x. IsChange after (output_key x.0 none)) (sym same) first
                  | inr later ↦ rest j later
                ]))
          w p r e
