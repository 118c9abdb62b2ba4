-- ===== src/Updater/Info/Balance.antt =====
-- The balance against the outputs that it sums, and against what the selection may spend
-- (libwallet/src/internal/updater.rs, libwallet/src/internal/selection.rs).
use grin_wallet.Prelude.{
  ℕ, ◌+◌, ◌≤◌, ◌<◌, ◌≡◌, refl, Bool, Bool-cases, inl, inr, true, false, not, List, [], ◌∷◌, ◌&&◌,
  ◌==◌, if◌then◌else◌, filter, All, add64, u64_mod, arith,
}
use native.Mathlib.Nat.{lt_of_le_of_lt}
use grin_wallet.Output.{OutputData, unconfirmed, spent, is_status, eligible_to_spend}
use grin_wallet.Selection.{eligible_outputs}
use grin_wallet.Selection.Cover.{worth}
use grin_wallet.Backend.{Env, Wallet, iter, last_confirmed_height_for_parent}
use grin_wallet.Updater.Info.{
  Totals, zero_totals, count_output, count_outputs, WalletInfo, retrieve_info,
}

-- The outputs of the wallet that the summary leaves out: spent ones and unconfirmed rewards.
abbrev pub is_ignored : OutputData → Bool
is_ignored o =
    if is_status o.status spent then true else is_status o.status unconfirmed && o.is_coinbase

abbrev pub sum_totals : Totals → ℕ
sum_totals t =
    t.unspent_total + t.immature_total + t.awaiting_finalization_total + t.unconfirmed_total
    + t.locked_total + t.reverted_total

module _ (h m : ℕ) where
  count_output_sum :
      (o : OutputData) (t : Totals)
      → sum_totals t + o.value < u64_mod
      → sum_totals (count_output h m o t) ≡ sum_totals t + (if is_ignored o then 0 else o.value)
  unfolding count_output add64
  count_output_sum o t b = ground arith

  count_outputs_sum :
      (os : List OutputData) (t : Totals)
      → sum_totals t + worth os < u64_mod
      → sum_totals (count_outputs h m os t)
        ≡ sum_totals t + worth (filter (λ o. not (is_ignored o)) os)
  unfolding count_outputs filter
  count_outputs_sum [] t b = omega arith
  count_outputs_sum (o ∷ os) t b =
      ground (arith, count_output_sum o t, count_outputs_sum os (count_output h m o t))

  -- The spendable total, one output at a time.
  count_output_spendable :
      (o : OutputData) (t : Totals)
      → 0 < m
      → t.unspent_total + o.value < u64_mod
      → (o.is_coinbase ≡ false → o.lock_height ≤ h)
      → (count_output h m o t).unspent_total
        ≡ t.unspent_total + (if eligible_to_spend o h m then o.value else 0)
  unfolding count_output eligible_to_spend add64
  count_output_spendable o t p b lock = ground arith

  count_outputs_spendable :
      (os : List OutputData) (t : Totals)
      → 0 < m
      → t.unspent_total + worth os < u64_mod
      → All (λ o. o.is_coinbase ≡ false → o.lock_height ≤ h) os
      → (count_outputs h m os t).unspent_total
        ≡ t.unspent_total + worth (filter (λ o. eligible_to_spend o h m) os)
  unfolding count_outputs filter
  count_outputs_spendable [] t p b lock = omega arith
  count_outputs_spendable (o ∷ os) t p b (l, lock) =
      ground
        (arith, count_output_spendable o t p, count_outputs_spendable os (count_output h m o t) p)

exact_total :
    (t : Totals)
    → sum_totals t < u64_mod
    → add64 (add64 t.unspent_total t.unconfirmed_total) t.immature_total
      ≡ t.unspent_total + t.unconfirmed_total + t.immature_total
unfolding add64
exact_total t b = omega arith

worth-filter_and :
    (p q : OutputData → Bool) (os : List OutputData)
    → worth (filter q (filter p os)) ≡ worth (filter (λ o. p o && q o) os)
unfolding filter
worth-filter_and p q [] = refl
worth-filter_and p q (o ∷ os) = ground (arith, worth-filter_and p q os)

worth-filter-le : (p : OutputData → Bool) (os : List OutputData) → worth (filter p os) ≤ worth os
unfolding filter
worth-filter-le p [] = omega arith
worth-filter-le p (o ∷ os) = ground (arith, worth-filter-le p os)

All-filter {κ} :
    (P : OutputData → Type κ) (p : OutputData → Bool) (os : List OutputData)
    → All P os
    → All P (filter p os)
unfolding filter
All-filter P p [] h = tt
All-filter P p (o ∷ os) (q, h) = elim (Bool-cases (p o)) [
  | inl e ↦ rw e (q, All-filter P p os h)
  | inr e ↦ rw e (All-filter P p os h)
]

module _ (env : Env) (w : Wallet env) (parent_key_id m : ℕ) where
  -- The outputs of the account.
  abbrev pub account : List OutputData
  account = filter (λ out. out.root_key_id == parent_key_id) (iter env w)

  abbrev info : WalletInfo
  info = retrieve_info env w parent_key_id m

  abbrev height : ℕ
  height = last_confirmed_height_for_parent env parent_key_id w

  account_fits : worth (iter env w) < u64_mod → worth account < u64_mod
  account_fits b =
      lt_of_le_of_lt (worth-filter-le (λ out. out.root_key_id == parent_key_id) (iter env w)) b

  -- No amount is counted twice and none is lost: where the wallet's outputs fit 64 bits together, the
  -- total, the amounts awaiting finalization, locked and reverted add up to the value of the account's
  -- outputs, but for the spent ones and the unconfirmed rewards; and the total is what is spendable,
  -- awaits confirmation or is immature.
  pub retrieve_info_total :
      worth (iter env w) < u64_mod
      → (info.total + info.amount_awaiting_finalization + info.amount_locked + info.amount_reverted
          ≡ worth (filter (λ o. not (is_ignored o)) account))
        × (info.total
            ≡ info.amount_currently_spendable + info.amount_awaiting_confirmation
              + info.amount_immature)
  unfolding retrieve_info
  retrieve_info_total b = ground (
    arith,
    account_fits b,
    count_outputs_sum height m account zero_totals,
    worth-filter-le (λ o. not (is_ignored o)) account,
    exact_total (count_outputs height m account zero_totals),
  )

  -- The summary and the selection agree: with at least one confirmation asked for, where the wallet's
  -- outputs fit 64 bits together and only rewards have a lock height above the last confirmed height,
  -- the amount that the summary shows as spendable is the value of the outputs that the selection
  -- finds eligible at that height.
  pub spendable-eq-eligible :
      worth (iter env w) < u64_mod
      → 0 < m
      → All (λ o. o.is_coinbase ≡ false → o.lock_height ≤ height) (iter env w)
      → info.amount_currently_spendable
        ≡ worth (eligible_outputs (iter env w) height m parent_key_id)
  unfolding retrieve_info eligible_outputs
  spendable-eq-eligible b p lock = omega (
    arith,
    count_outputs_spendable height m account zero_totals p (omega (arith, account_fits b))
        (All-filter _ (λ out. out.root_key_id == parent_key_id) (iter env w) lock),
    worth-filter_and (λ out. out.root_key_id == parent_key_id) (λ o. eligible_to_spend o height m)
        (iter env w),
  )
