-- ===== src/Examples/Coins.antt =====
-- The theorems on outputs and selection at concrete inputs.
use grin_wallet.Prelude.{◌≤◌, ◌≡◌, ◌≢◌, ◌↔◌, refl, true, false, List, [], ◌∷◌, filter, arith}
use grin_wallet.Prelude.Result.{ok, stuck}
use grin_wallet.Output.{OutputData, eligible_to_spend, lock, mark_spent, spent}
use grin_wallet.Output.Spending.{IsSpendable, eligible_to_spend-IsSpendable}
use grin_wallet.Output.Lifecycle.{
  Many, NodeMark, by_node, done, then, locking, spending, is_committed, Marks-is_committed,
}
use grin_wallet.Selection.{
  select_sorted, select_coins, first_window, select_from, take_amount, sum_from, sort_by_value,
  insert_by_value, eligible_outputs,
}
use grin_wallet.Selection.Cover.{worth, select_sorted_covers}
use grin_wallet.Selection.Fee.{
  select_coins_and_fee, with_fee, raise_loop, check_weight, first_attempt, amount_with_fee,
}
use grin_wallet.Selection.Fee.Loop.{select_coins_and_fee-ne-stuck}
use grin_wallet.Selection.Fee.Sound.{IsSelection, select_coins_and_fee-IsSelection}
use grin_wallet.Examples.{core, free, bound, change, request}

eligible_to_spend-IsSpendable_example :
    (eligible_to_spend free 20 10 ≡ true) ↔ IsSpendable free 20 10
eligible_to_spend-IsSpendable_example = eligible_to_spend-IsSpendable free 20 10 (omega arith)

-- A lock after a spend, and a spend again.
Marks-is_committed_example :
    (mark_spent (lock (mark_spent free))
      ≡ record free { status = (mark_spent (lock (mark_spent free))).status })
    × (is_committed free.status ≡ true
        → is_committed (mark_spent (lock (mark_spent free))).status ≡ true)
    × (Many NodeMark free (mark_spent (lock (mark_spent free)))
        → free.status ≡ spent
        → mark_spent (lock (mark_spent free)) ≡ free)
Marks-is_committed_example =
    Marks-is_committed (then (by_node spending) (then locking (then (by_node spending) done)))

select_sorted_covers_example :
    (sel : List OutputData) × (select_sorted 35 1 false (bound ∷ free ∷ []) ≡ ok sel)
    × (35 ≤ worth sel)
select_sorted_covers_example =
    select_sorted_covers 35 1 false (bound ∷ free ∷ []) (omega arith) (omega arith) (omega arith)

select_coins_and_fee-ne-stuck_example :
    select_coins_and_fee core (free ∷ bound ∷ change ∷ []) request ≢ stuck
select_coins_and_fee-ne-stuck_example =
    select_coins_and_fee-ne-stuck core (free ∷ bound ∷ change ∷ []) request (omega arith)

chosen : select_coins_and_fee core (free ∷ bound ∷ change ∷ []) request ≡ ok (free ∷ [], 40, 20, 9)
unfolding select_coins_and_fee with_fee raise_loop check_weight first_attempt select_coins
    select_sorted first_window select_from take_amount sum_from sort_by_value insert_by_value
    eligible_outputs eligible_to_spend amount_with_fee filter
chosen = refl

select_coins_and_fee-IsSelection_example :
    IsSelection core (free ∷ bound ∷ change ∷ []) request (free ∷ []) 40 20 9
select_coins_and_fee-IsSelection_example =
    select_coins_and_fee-IsSelection core (free ∷ bound ∷ change ∷ []) request
      (record { wallet = omega arith; asked = λ s a n o e b. omega arith }) (free ∷ []) 40 20 9
      chosen
