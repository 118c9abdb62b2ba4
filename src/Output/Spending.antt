-- ===== src/Output/Spending.antt =====
-- When an output may be spent (`eligible_to_spend` of libwallet/src/types.rs).
use grin_wallet.Prelude.{ℕ, ◌+◌, ◌≤◌, ◌<◌, ◌≡◌, ◌⊎◌, ◌↔◌, true, false, u64_mod, arith}
use grin_wallet.Output.{OutputData, unspent, unconfirmed, eligible_to_spend}

-- What spending needs: a passed lock height, and an unspent output with enough confirmations or,
-- where none are asked for, an unconfirmed output that is no reward.
abbrev pub IsSpendable : OutputData → ℕ → ℕ → Type 0
IsSpendable o h m =
    (o.lock_height ≤ h)
    × (((o.status ≡ unspent) × ((m ≡ 0) ⊎ (o.height + m ≤ h + 1)))
        ⊎ ((o.status ≡ unconfirmed) × (o.is_coinbase ≡ false) × (m ≡ 0)))

module _ (o : OutputData) (h m : ℕ) where
  eligible_sound : h + 1 < u64_mod → eligible_to_spend o h m ≡ true → IsSpendable o h m
  unfolding eligible_to_spend
  eligible_sound b e = ground arith

  eligible_complete : h + 1 < u64_mod → IsSpendable o h m → eligible_to_spend o h m ≡ true
  unfolding eligible_to_spend
  eligible_complete b s = ground arith

  -- Below the last 64-bit height, an output is eligible at a height and a minimum of confirmations
  -- exactly when its lock height has passed and either it is unspent and has the confirmations (none
  -- asked for, or its height plus the minimum is at most the height plus one), or it is unconfirmed,
  -- no coinbase, and no confirmation is asked for.
  pub eligible_to_spend-IsSpendable :
      h + 1 < u64_mod → (eligible_to_spend o h m ≡ true) ↔ IsSpendable o h m
  eligible_to_spend-IsSpendable b = (eligible_sound b, eligible_complete b)
