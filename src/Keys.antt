-- ===== src/Keys.antt =====
-- Accounts and keys of the wallet (libwallet/src/internal/keys.rs).
pub mod Fresh
use text.Mathlib.Text.{◌==◌ as str_eq}
use Prim.Native.String.{String}
use grin_wallet.Prelude.{
  ℕ, ◌+◌, ◌%◌, ◌^◌, Bool, true, false, Option, none, some, List, [], ◌∷◌, ltb, any, if◌then◌else◌,
}
use grin_wallet.Prelude.Result.{Result, ok, err, account_label_already_exists}
use grin_wallet.Prelude.Exec.{pure, ◌>>=◌, ◌>>◌}
use grin_wallet.Output.{OutputData}
use grin_wallet.Backend.{
  Env, Wallet, Op, AcctPathMapping, in_batch, save_acct_path, acct_path_iter, get_output,
  next_child,
}

-- The paths of the keychain crate: the first child number of a path, a path with another first child
-- number, and `derive_key_id(2, 0, 0, 0, 0)`.
pub record Paths : Type 0 where
  pub first_index : ℕ → ℕ
  pub set_first_index : ℕ → ℕ → ℕ
  pub account_zero : ℕ

abbrev higher : Paths → AcctPathMapping → Option AcctPathMapping → AcctPathMapping
higher paths a none = a
higher paths a (some b) = if ltb (paths.first_index b.path) (paths.first_index a.path) then a else b

-- `max_by`, which takes the last of equal ones
unfoldable pub highest_entry : Paths → List AcctPathMapping → Option AcctPathMapping
highest_entry paths [] = none
highest_entry paths (a ∷ as') = some (higher paths a (highest_entry paths as'))

abbrev pub next_path : Paths → Option AcctPathMapping → ℕ
next_path paths none = paths.account_zero
next_path paths (some e) = paths.set_first_index e.path ((paths.first_index e.path + 1) % 2 ^ 32)

module _ (env : Env) where
  abbrev pub next_available_key : Op env ℕ
  next_available_key = next_child env

  unfoldable pub retrieve_existing_key : ℕ → Option ℕ → Op env (ℕ × ℕ)
  retrieve_existing_key key_id mmr_index = do
    existing ← get_output env key_id mmr_index
    pure (existing.key_id, existing.n_child)

  unfoldable pub new_acct_path : Paths → String → Op env ℕ
  unfolding highest_entry
  new_acct_path paths label w =
      if any (λ l. str_eq l.label label) (acct_path_iter env w)
      then (err account_label_already_exists, w)
      else (let return_id : ℕ = next_path paths (highest_entry paths (acct_path_iter env w)) in
            in_batch env (save_acct_path env (record { label = label; path = return_id }))
            >> pure return_id)
          w

  unfoldable pub set_acct_path : String → ℕ → Op env (Unit {0})
  set_acct_path label path =
      in_batch env (save_acct_path env (record { label = label; path = path }))
