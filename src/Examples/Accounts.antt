-- ===== src/Examples/Accounts.antt =====
-- The theorem on new accounts at a wallet with one account.
use text.Mathlib.Text.{◌==◌ as str_eq}
use grin_wallet.Prelude.{ℕ, ◌<◌, ◌≡◌, refl, false, true, [], ◌∷◌, any, All, arith}
use grin_wallet.Prelude.Result.{ok, err, account_label_already_exists}
use grin_wallet.Store.Assoc.{values}
use grin_wallet.Backend.{Wallet, acct_path_iter}
use grin_wallet.Keys.{Paths, new_acct_path}
use grin_wallet.Keys.Fresh.{new_acct_path_fresh}
use grin_wallet.Examples.{env, wallet}

abbrev paths : Paths
paths = record { first_index = λ p. p; set_first_index = λ p i. i; account_zero = 0 }

abbrev accounts : Wallet env
accounts = record wallet { acct_paths = (5 ∷ [], record { label = "default"; path = 4 }) ∷ [] }

new_acct_path_fresh_example :
    ((id : ℕ)
      → (new_acct_path env paths "savings" accounts).0 ≡ ok id
      → (any (λ l. str_eq l.label "savings") (acct_path_iter env accounts) ≡ false)
        × All (λ a. a.path < id) (acct_path_iter env accounts))
    × (any (λ l. str_eq l.label "savings") (acct_path_iter env accounts) ≡ true
        → new_acct_path env paths "savings" accounts ≡ (err account_label_already_exists, accounts))
unfolding values any
new_acct_path_fresh_example =
    new_acct_path_fresh env paths "savings" accounts (λ p i b. refl) (omega arith, tt)
