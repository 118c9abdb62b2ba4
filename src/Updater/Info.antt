-- ===== src/Updater/Info.antt =====
-- The summary of an account's balance (`retrieve_info` of libwallet/src/internal/updater.rs).
pub mod Balance
use grin_wallet.Prelude.{
  ℕ, Bool, true, false, List, [], ◌∷◌, ◌&&◌, ltb, ◌==◌, if◌then◌else◌, filter, add64,
}
use grin_wallet.Output.{
  OutputData, OutputStatus, unconfirmed, unspent, locked, spent, reverted, num_confirmations,
}
use grin_wallet.Backend.{Env, Wallet, iter, last_confirmed_height_for_parent}

pub record WalletInfo : Type 0 where
  pub last_confirmed_height : ℕ
  pub minimum_confirmations : ℕ
  pub total : ℕ
  pub amount_awaiting_finalization : ℕ
  pub amount_awaiting_confirmation : ℕ
  pub amount_immature : ℕ
  pub amount_currently_spendable : ℕ
  pub amount_locked : ℕ
  pub amount_reverted : ℕ

-- The running totals of the loop.
pub record Totals : Type 0 where
  pub unspent_total : ℕ
  pub immature_total : ℕ
  pub awaiting_finalization_total : ℕ
  pub unconfirmed_total : ℕ
  pub locked_total : ℕ
  pub reverted_total : ℕ

abbrev pub zero_totals : Totals
zero_totals = record {
  unspent_total = 0;
  immature_total = 0;
  awaiting_finalization_total = 0;
  unconfirmed_total = 0;
  locked_total = 0;
  reverted_total = 0;
}

abbrev count_status : OutputStatus → ℕ → ℕ → OutputData → Totals → Totals
count_status unspent h m out t =
    if out.is_coinbase && ltb h out.lock_height
    then record t { immature_total = add64 t.immature_total out.value }
    else if ltb (num_confirmations out h) m
    then record t { unconfirmed_total = add64 t.unconfirmed_total out.value }
    else record t { unspent_total = add64 t.unspent_total out.value }
count_status unconfirmed h m out t =
    if out.is_coinbase
    then t
    else if m == 0
    then record t { unconfirmed_total = add64 t.unconfirmed_total out.value }
    else record t { awaiting_finalization_total = add64 t.awaiting_finalization_total out.value }
count_status locked h m out t = record t { locked_total = add64 t.locked_total out.value }
count_status reverted h m out t = record t { reverted_total = add64 t.reverted_total out.value }
count_status spent h m out t = t

-- One round of the loop.
unfoldable pub count_output : ℕ → ℕ → OutputData → Totals → Totals
count_output h m out t = count_status out.status h m out t

unfoldable pub count_outputs : ℕ → ℕ → List OutputData → Totals → Totals
count_outputs h m [] t = t
count_outputs h m (out ∷ outs) t = count_outputs h m outs (count_output h m out t)

unfoldable pub retrieve_info : (env : Env) → Wallet env → ℕ → ℕ → WalletInfo
unfolding count_outputs
retrieve_info env w parent_key_id minimum_confirmations =
    let current_height : ℕ = last_confirmed_height_for_parent env parent_key_id w in
    let outputs : List OutputData = filter (λ out. out.root_key_id == parent_key_id) (iter env w) in
    let t : Totals = count_outputs current_height minimum_confirmations outputs zero_totals in
    record {
      last_confirmed_height = current_height;
      minimum_confirmations = minimum_confirmations;
      total = add64 (add64 t.unspent_total t.unconfirmed_total) t.immature_total;
      amount_awaiting_finalization = t.awaiting_finalization_total;
      amount_awaiting_confirmation = t.unconfirmed_total;
      amount_immature = t.immature_total;
      amount_currently_spendable = t.unspent_total;
      amount_locked = t.locked_total;
      amount_reverted = t.reverted_total;
    }
