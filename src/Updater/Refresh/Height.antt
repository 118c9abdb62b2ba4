-- ===== src/Updater/Refresh/Height.antt =====
-- The confirmed height of an account under a refresh (`apply_api_outputs` of
-- libwallet/src/internal/updater.rs).
use grin_wallet.Prelude.{
  ℕ, ◌≤◌, ◌≡◌, refl, ◌∙◌, ap, ◌⊎◌, inl, inr, Option, List, ltb, arith, Bool-cases,
}
use grin_wallet.Prelude.Result.{Result, ok, err, panic, stuck}
use grin_wallet.Prelude.Exec.{batched, ◌>>◌, for_each, exec-eq-ok, continue}
use grin_wallet.Prelude.Keeps.{batched-cases}
use grin_wallet.Bytes.{bytes_eq_refl}
use grin_wallet.Backend.{
  Env, Wallet, Op, in_batch, id_bytes, last_confirmed_height_for_parent, save_last_confirmed_height,
}
use grin_wallet.Updater.Query.{Tracked}
use grin_wallet.Updater.Refresh.{apply_output, apply_api_outputs, save_reverted}

pub in_batch-cases :
    (env : Env) {A : Type 0} (m : Op env A) (w : Wallet env)
    → ((in_batch env m w).1 ≡ w) ⊎ ((a : A) × ((m w).0 ≡ ok a) × ((in_batch env m w).1 ≡ (m w).1))
in_batch-cases env {A = A} m w = opened env.unlocked
  where
    opened :
        (r : Result (Unit {0}))
        → ((continue r (λ _. batched m) w).1 ≡ w)
          ⊎ ((a : A) × ((m w).0 ≡ ok a) × ((continue r (λ _. batched m) w).1 ≡ (m w).1))
    opened (ok u) = batched-cases m w
    opened (err e) = inl refl
    opened panic = inl refl
    opened stuck = inl refl

module _ (env : Env) where
  saved_height :
      (parent_key_id height : ℕ) (w : Wallet env)
      → last_confirmed_height_for_parent env parent_key_id
          (save_last_confirmed_height env parent_key_id height w).1
        ≡ height
  unfolding last_confirmed_height_for_parent save_last_confirmed_height
  saved_height parent_key_id height w =
      rw (env.get-put w.confirmed_heights (id_bytes parent_key_id) (id_bytes parent_key_id) height)
        (rw (bytes_eq_refl (id_bytes parent_key_id)) refl)

  -- The answer of the node to a refresh leaves the wallet as it was, or the node's height is not
  -- below the one that the account has recorded and becomes the recorded one.
  pub apply_api_outputs-height :
      (ts : List Tracked) (api : ℕ → Option ℕ) (reverted : List ℕ) (height parent_key_id : ℕ)
      (w : Wallet env)
      → ((apply_api_outputs env ts api reverted height parent_key_id w).1 ≡ w)
        ⊎ ((last_confirmed_height_for_parent env parent_key_id w ≤ height)
            × (last_confirmed_height_for_parent env parent_key_id
                  (apply_api_outputs env ts api reverted height parent_key_id w).1
                ≡ height))
  unfolding apply_api_outputs
  apply_api_outputs-height ts api reverted height parent_key_id w =
      elim (Bool-cases (ltb height (last_confirmed_height_for_parent env parent_key_id w))) [
        | inl e ↦ inl (rw e refl)
        | inr e ↦
            let m = for_each ts (apply_output env parent_key_id height reverted api) in
            let n = save_reverted env reverted parent_key_id in
            let k = save_last_confirmed_height env parent_key_id height in
            elim (in_batch-cases env (m >> (n >> k)) w) [
              | inl f ↦ inl (rw e f)
              | inr (a, f, g) ↦
                  let (x, e1, f1, g1) = exec-eq-ok m (λ _. n >> k) w f in
                  let (y, e2, f2, g2) = exec-eq-ok n (λ _. k) (m w).1 f1 in
                  inr (
                    ground arith,
                    rw e (
                        ap (λ v. last_confirmed_height_for_parent env parent_key_id v)
                          (g ∙ ap (λ r. r.1) g1 ∙ ap (λ r. r.1) g2)
                        ∙ saved_height parent_key_id height (n (m w).1).1),
                  )
            ]
      ]
