-- ===== src/Updater/Cancel/Restored.antt =====
-- What a cancellation leaves in the wallet (libwallet/src/internal/updater.rs).
use grin_wallet.Prelude.{
  ℕ, ◌≡◌, refl, sym, ◌∙◌, ◌⊎◌, inl, inr, Bool, true, false, Option, none, some, List, [], ◌∷◌, ◌&&◌,
  ◌==◌, opt_eq, if◌then◌else◌, any, All, Bool-cases, arith,
}
use mathlib.Core.Path.{subst}
use grin_wallet.Prelude.Result.{ok}
use grin_wallet.Prelude.Exec.{for_each}
use grin_wallet.Bytes.{Bytes, bytes_eq, bytes_eq→eq, bytes_eq_refl}
use grin_wallet.Output.{OutputData, OutputStatus, unconfirmed, unspent, locked, spent, reverted}
use grin_wallet.Backend.{Env, Wallet, output_key, save, delete}
use grin_wallet.Updater.Cancel.{cancel_output}

abbrev pub key_of : OutputData → Bytes
key_of o = output_key o.key_id o.mmr_index

-- What is left of an output of a cancelled transaction: nothing of one that was to come, and a
-- locked one is free again.
abbrev pub settled_by : OutputStatus → OutputData → Option OutputData
settled_by unconfirmed o = none
settled_by reverted o = none
settled_by locked o = some (record o { status = unspent })
settled_by unspent o = some o
settled_by spent o = some o

abbrev pub settled : OutputData → Option OutputData
settled o = settled_by o.status o

abbrev pub is_of_tx : ℕ → ℕ → OutputData → Bool
is_of_tx id parent_key_id o = opt_eq o.tx_log_entry (some id) && (o.root_key_id == parent_key_id)

-- The specification of a cancellation, at one key.
abbrev pub after_cancel : ℕ → ℕ → Option OutputData → Option OutputData
after_cancel id parent_key_id none = none
after_cancel id parent_key_id (some o) = if is_of_tx id parent_key_id o then settled o else some o

module _ (env : Env) where
  abbrev pub at_key : Wallet env → Bytes → Option OutputData
  at_key w k = env.get w.outputs k

  -- Every output stands under its own key.
  abbrev pub Keyed : Wallet env → Type 0
  Keyed w = (k : Bytes) (o : OutputData) → at_key w k ≡ some o → key_of o ≡ k

  cancel_output_ok : (o : OutputData) (w : Wallet env) → (cancel_output env o w).0 ≡ ok tt
  unfolding cancel_output save delete
  cancel_output_ok o w = ground arith

  cancel_output_here :
      (o : OutputData) (w : Wallet env) (k : Bytes)
      → bytes_eq (key_of o) k ≡ true
      → ((at_key w k ≡ some o) ⊎ (at_key w k ≡ settled o))
      → at_key (cancel_output env o w).1 k ≡ settled o
  unfolding cancel_output save delete
  cancel_output_here o w k e h = ground (
    arith,
    env.get-delete w.outputs (key_of o) k,
    env.get-put w.outputs (key_of o) k (record o { status = unspent }),
  )

  cancel_output_other :
      (o : OutputData) (w : Wallet env) (k : Bytes)
      → bytes_eq (key_of o) k ≡ false
      → at_key (cancel_output env o w).1 k ≡ at_key w k
  unfolding cancel_output save delete
  cancel_output_other o w k e = ground (
    arith,
    env.get-delete w.outputs (key_of o) k,
    env.get-put w.outputs (key_of o) k (record o { status = unspent }),
  )

  module _ (id parent_key_id : ℕ) (w0 : Wallet env) where
    abbrev pub post : Bytes → Option OutputData
    post k = after_cancel id parent_key_id (at_key w0 k)

    -- The outputs that a cancellation works on: stored under their own keys, and of the transaction.
    pub record IsStored (o : OutputData) : Type 0 where
      pub at : at_key w0 (key_of o) ≡ some o
      pub of_tx : is_of_tx id parent_key_id o ≡ true

    abbrev pub is_pending : List OutputData → Bytes → Bool
    is_pending os k = any (λ o. bytes_eq (key_of o) k) os

    abbrev pub Good : Bool → Bytes → Option OutputData → Type 0
    Good true k g = (g ≡ at_key w0 k) ⊎ (g ≡ post k)
    Good false k g = g ≡ post k

    -- The loop has done its work at every key that is not pending.
    abbrev pub IsUnderWay : List OutputData → Wallet env → Type 0
    IsUnderWay os w = (k : Bytes) → Good (is_pending os k) k (at_key w k)

    post_stored : (o : OutputData) → IsStored o → post (key_of o) ≡ settled o
    post_stored o s = rw s.at (rw s.of_tx refl)

    pub Good-done : (b : Bool) (k : Bytes) (g : Option OutputData) → g ≡ post k → Good b k g
    Good-done true k g e = inr e
    Good-done false k g e = e

    step_here :
        (o : OutputData) (w : Wallet env)
        → IsStored o
        → Good true (key_of o) (at_key w (key_of o))
        → at_key (cancel_output env o w).1 (key_of o) ≡ post (key_of o)
    step_here o w s g =
        cancel_output_here o w (key_of o) (bytes_eq_refl (key_of o))
          (elim g [ inl e ↦ inl (e ∙ s.at) | inr e ↦ inr (e ∙ post_stored o s) ])
        ∙ sym (post_stored o s)

    pending_here :
        (o : OutputData) (os : List OutputData) (k : Bytes)
        → bytes_eq (key_of o) k ≡ true
        → is_pending (o ∷ os) k ≡ true
    unfolding any
    pending_here o os k e = ground arith

    pending_other :
        (o : OutputData) (os : List OutputData) (k : Bytes)
        → bytes_eq (key_of o) k ≡ false
        → is_pending (o ∷ os) k ≡ is_pending os k
    unfolding any
    pending_other o os k e = ground arith

    step :
        (o : OutputData) (os : List OutputData) (w : Wallet env)
        → IsStored o
        → IsUnderWay (o ∷ os) w
        → IsUnderWay os (cancel_output env o w).1
    step o os w s h k = elim (Bool-cases (bytes_eq (key_of o) k)) [
      | inl here ↦ Good-done (is_pending os k) k _ (
          subst (λ j. at_key (cancel_output env o w).1 j ≡ post j) (bytes_eq→eq (key_of o) k here)
            (step_here o w s (
              subst (λ b. Good b (key_of o) (at_key w (key_of o)))
                (pending_here o os (key_of o) (bytes_eq_refl (key_of o))) (h (key_of o)))))
      | inr other ↦
          subst (λ g. Good (is_pending os k) k g) (sym (cancel_output_other o w k other))
            (subst (λ b. Good b k (at_key w k)) (pending_other o os k other) (h k))
    ]

    pub loop :
        (os : List OutputData) (w : Wallet env)
        → All IsStored os
        → IsUnderWay os w
        → ((for_each os (cancel_output env) w).0 ≡ ok tt)
          × IsUnderWay [] (for_each os (cancel_output env) w).1
    unfolding for_each
    loop [] w s h = (refl, h)
    loop (o ∷ os) w (p, s) h =
        rw (cancel_output_ok o w) (loop os (cancel_output env o w).1 s (step o os w p h))
