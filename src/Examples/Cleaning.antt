-- ===== src/Examples/Cleaning.antt =====
-- The theorem on old unconfirmed coinbases at a wallet that has one.
use grin_wallet.Prelude.{
  ◌≡◌, refl, sym, ap, ◌∙◌, true, none, some, List, [], ◌∷◌, Bool-cases, inl, inr, some_injective,
  arith,
}
use grin_wallet.Prelude.Result.{ok}
use grin_wallet.Bytes.{Bytes, bytes_eq}
use grin_wallet.Store.Assoc.{lookup}
use grin_wallet.Output.{OutputData}
use grin_wallet.Backend.{Wallet, output_key}
use grin_wallet.Updater.Cancel.Restored.{Keyed}
use grin_wallet.Updater.Refresh.{clean_old_unconfirmed}
use grin_wallet.Updater.Refresh.Old.{IsOld}
use grin_wallet.Updater.Refresh.Clean.{NoOldIndex, clean_old_unconfirmed-get}
use grin_wallet.Examples.{env, wallet, free, change}
use grin_wallet.Examples.Wallets.{keyed_row, no_rows}

abbrev minted : OutputData
minted = record change { is_coinbase = true }

abbrev mine : Wallet env
mine = record wallet { outputs = (output_key 11 none, free) ∷ (output_key 13 none, minted) ∷ [] }

mine-Keyed : Keyed env mine
mine-Keyed k o =
    keyed_row (output_key 11 none) k free o ((output_key 13 none, minted) ∷ []) refl
      (λ j p. keyed_row (output_key 13 none) j minted p [] refl no_rows)

no_index_row :
    (key k : Bytes) (row o : OutputData) (rows : List (Bytes × OutputData))
    → row.mmr_index ≡ none
    → (lookup rows k ≡ some o → o.mmr_index ≡ none)
    → lookup ((key, row) ∷ rows) k ≡ some o
    → o.mmr_index ≡ none
unfolding lookup
no_index_row key k row o rows e h g = elim (Bool-cases (bytes_eq key k)) [
  | inl b ↦ ap (λ x. x.mmr_index) (sym (some_injective (rw b at g))) ∙ e
  | inr b ↦ h (rw b at g)
]

no_index : (k : Bytes) (o : OutputData) → lookup [] k ≡ some o → o.mmr_index ≡ none
unfolding lookup
no_index k o e = cc

mine-NoOldIndex : NoOldIndex env 100 mine
mine-NoOldIndex k o e old =
    no_index_row (output_key 11 none) k free o ((output_key 13 none, minted) ∷ []) refl
      (no_index_row (output_key 13 none) k minted o [] refl (no_index k o)) e

clean_old_unconfirmed-get_example :
    ((clean_old_unconfirmed env 100 mine).0 ≡ ok tt)
    × ((k : Bytes) (o : OutputData)
        → env.get mine.outputs k ≡ some o
        → IsOld 100 o
        → env.get (clean_old_unconfirmed env 100 mine).1.outputs k ≡ none)
    × ((k : Bytes)
        → ((o : OutputData) → env.get mine.outputs k ≡ some o → ¬ (IsOld 100 o))
        → env.get (clean_old_unconfirmed env 100 mine).1.outputs k ≡ env.get mine.outputs k)
clean_old_unconfirmed-get_example =
    clean_old_unconfirmed-get env 100 mine (omega arith) refl mine-Keyed mine-NoOldIndex
