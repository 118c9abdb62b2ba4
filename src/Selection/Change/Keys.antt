-- ===== src/Selection/Change/Keys.antt =====
-- The keys of the change outputs (`inputs_and_change` of libwallet/src/internal/selection.rs with
-- `next_child` of libwallet/src/backend.rs).
use native.Mathlib.Nat.{mod-eq_of_lt}
use grin_wallet.Prelude.{
  ℕ, zero, suc, ◌+◌, ◌<◌, ◌≡◌, refl, sym, ◌∙◌, ap, ◌^◌, ◌%◌, List, [], ◌∷◌, map, arith, ◌==◌,
  if◌then◌else◌, add64,
}
use grin_wallet.Prelude.Result.{ok}
use grin_wallet.Bytes.{bytes_eq_refl}
use grin_wallet.Backend.{Env, Wallet, next_child, current_child_index, save_child_index, id_bytes}
use grin_wallet.Selection.Change.{ChangeOutput, new_change, change_outputs}

module _ (env : Env) where
  -- The children of a path, from one number on.
  abbrev pub children : ℕ → ℕ → ℕ → List ℕ
  children parent d zero = []
  children parent d (suc n) = env.child_path parent d ∷ children parent (d + 1) n

  next_child_ok :
      (w : Wallet env)
      → env.unlocked ≡ ok tt
      → current_child_index env w.parent_key_id w + 1 < 2 ^ 32
      → ((next_child env w).0
          ≡ ok (env.child_path w.parent_key_id (current_child_index env w.parent_key_id w)))
        × (current_child_index env w.parent_key_id (next_child env w).1
            ≡ current_child_index env w.parent_key_id w + 1)
        × ((next_child env w).1.parent_key_id ≡ w.parent_key_id)
  unfolding next_child current_child_index save_child_index
  next_child_ok w u b =
      let k = id_bytes w.parent_key_id in
      let put =
        env.get-put w.child_indices k k
          ((current_child_index env w.parent_key_id w + 1) % 2 ^ 32) in
      (rw u refl, ground (arith, u, put, bytes_eq_refl k, mod-eq_of_lt b), rw u refl)

  -- With an open wallet and child numbers of 32 bits left, the keys of the change outputs are the
  -- children of the active account from its stored number on, in order, one for each output, and
  -- the stored number afterwards is past all of them.
  pub change_outputs-children :
      (part rem n : ℕ) (w : Wallet env)
      → env.unlocked ≡ ok tt
      → current_child_index env w.parent_key_id w + n < 2 ^ 32
      → (cs : List ChangeOutput) × ((change_outputs env part rem n w).0 ≡ ok cs)
        × (map (λ c. c.id) cs
            ≡ children w.parent_key_id (current_child_index env w.parent_key_id w) n)
        × (current_child_index env w.parent_key_id (change_outputs env part rem n w).1
            ≡ current_child_index env w.parent_key_id w + n)
  unfolding change_outputs
  change_outputs-children part rem zero w u b = ([], refl, refl, omega arith)
  change_outputs-children part rem (suc n) w u b =
      let (e, i, p) = next_child_ok w u (omega arith) in
      let (cs, f, g, j) =
        change_outputs-children part rem n (next_child env w).1 u (ground (arith, i, p)) in
      (
        new_change (if n == 0 then add64 part rem else part)
              (env.child_path w.parent_key_id (current_child_index env w.parent_key_id w))
            ∷ cs,
        rw e (rw f refl),
        ap (λ l. env.child_path w.parent_key_id (current_child_index env w.parent_key_id w) ∷ l)
            (g
              ∙ ap (λ q. children q (current_child_index env q (next_child env w).1) n) p
              ∙ ap (λ d. children w.parent_key_id d n) i),
        rw e (
            rw f (
              omega (
                arith,
                i,
                sym (
                      ap
                        (λ q.
                          current_child_index env q
                            (change_outputs env part rem n (next_child env w).1).1)
                        p)
                    ∙ j
                    ∙ ap (λ q. current_child_index env q (next_child env w).1 + n) p,
              ))),
      )
