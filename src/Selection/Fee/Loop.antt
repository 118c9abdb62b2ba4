-- ===== src/Selection/Fee/Loop.antt =====
-- The loop of `select_coins_and_fee` ends (libwallet/src/internal/selection.rs).
use mathlib.Core.List.{reverse}
use native.Mathlib.Decide.{dec_lt}
use native.Mathlib.Nat.{lt_of_le_of_lt}
use mathlib.Core.Path.{subst}
use grin_wallet.Prelude.{
  ℕ, zero, suc, ◌+◌, ◌≤◌, ◌<◌, ◌≡◌, refl, sym, ap, ◌≢◌, ◌⊎◌, inl, inr, Bool, true, false, Option,
  none, some, List, leb, ◌==◌, length, take, length-take, u64_mod, Bool-cases, arith,
}
use grin_wallet.Prelude.Result.{Result, ok, stuck, ◌>>=◌, >>=-ne-stuck}
use grin_wallet.Core.{Core}
use grin_wallet.Output.{OutputData}
use grin_wallet.Selection.{
  select_from, largest, or_largest, select_sorted, Request, candidates, select_coins,
}
use grin_wallet.Selection.Cover.{
  worth, sum_from_lem, worth-take-le, worth-take_mono, take_amount-eq-take, select_from_covers,
}
use grin_wallet.Selection.Candidates.{worth-candidates-le, length-reverse}
use grin_wallet.Selection.Fee.{
  Picked, with_fee, raise_loop, first_attempt, check_weight, select_coins_and_fee,
}

-- With the number of eligible outputs for its limit, a selection takes all of them, or a front part
-- that covers the amount.
abbrev IsFull : ℕ → List OutputData → List OutputData → Type 0
IsFull amount el sel =
    (length sel ≡ length el) ⊎ ((sel ≡ take (length sel) el) × (amount ≤ worth sel))

chosen-IsFull :
    (amount : ℕ) (all : Bool) (el sel : List OutputData)
    → worth el < u64_mod
    → select_from amount all el ≡ some sel
    → IsFull amount el sel
unfolding select_from
chosen-IsFull amount true el sel h e = inl (ground arith)
chosen-IsFull amount false el sel h e =
    inr
      (ground (arith, take_amount-eq-take amount 0 el), select_from_covers amount false el sel h e)

largest_all : (el : List OutputData) → length (largest (length el) el) ≡ length el
largest_all el = omega (arith, length-take (length el) (reverse el), length-reverse el)

IsFull-selection :
    (w : Option (List OutputData)) (amount : ℕ) (el : List OutputData)
    → ((sel : List OutputData) → w ≡ some sel → IsFull amount el sel)
    → IsFull amount el (or_largest w (length el) el)
IsFull-selection none amount el h = inl (largest_all el)
IsFull-selection (some sel) amount el h = h sel refl

count_found :
    (m : Result (List OutputData)) (n : ℕ) (found : ℕ × List OutputData)
    → (m >>= λ sel. ok (n, sel)) ≡ ok found
    → found.0 ≡ n
count_found m n found e = ground arith

module _ (core : Core) (outputs : List OutputData) (r : Request) where
  abbrev el : List OutputData
  el = candidates outputs r

  abbrev again : ℕ → List OutputData
  again amount = or_largest (select_from amount r.select_all el) (length el) el

  select_again :
      (amount : ℕ) → select_coins outputs r amount (length el) ≡ ok (length el, again amount)
  unfolding select_coins select_sorted
  select_again amount = ground arith

  IsFull-again : (amount : ℕ) → worth el < u64_mod → IsFull amount el (again amount)
  IsFull-again amount h =
      IsFull-selection (select_from amount r.select_all el) amount el
        (λ sel e. chosen-IsFull amount r.select_all el sel h e)

  abbrev picked : List OutputData → Picked
  picked coins = with_fee core outputs r coins (r.change_outputs + 1)

  abbrev loop : ℕ → Picked → Result Picked
  loop fuel = raise_loop core outputs r fuel (length el)

  -- One round, of a loop that is not done.
  loop_step :
      (fuel : ℕ) (p : Picked)
      → leb p.needed p.total ≡ false
      → (length p.coins == length el) ≡ false
      → loop (suc fuel) p ≡ loop fuel (picked (again p.needed))
  unfolding raise_loop
  loop_step fuel p e f = rw (e, f, select_again p.needed) refl

  loop_last : (fuel : ℕ) (p : Picked) → length p.coins ≡ length el → loop (suc fuel) p ≢ stuck
  unfolding raise_loop
  loop_last fuel p e = ground arith

  loop_done : (fuel : ℕ) (p : Picked) → leb p.needed p.total ≡ true → loop (suc fuel) p ≢ stuck
  unfolding raise_loop
  loop_done fuel p e = ground arith

  length-front : (k : ℕ) → k ≤ length el → length (take k el) ≡ k
  length-front k b = omega (arith, length-take k el)

  -- A later front part that covers more is longer.
  front_grows :
      (j k : ℕ)
      → worth el < u64_mod
      → leb (picked (take k el)).needed (picked (take k el)).total ≡ false
      → (picked (take k el)).needed ≤ worth (take j el)
      → k < j
  unfolding with_fee
  front_grows j k w more covers = elim (dec_lt k j) [
    | yes lt ↦ lt
    | no ge ↦
        absurd
          (ground (arith, worth-take_mono j k el, worth-take-le k el, sum_from_lem 0 (take k el)))
  ]

  front_short : (sel : List OutputData) → sel ≡ take (length sel) el → length sel ≤ length el
  front_short sel e = omega (arith, ap length e, length-take (length sel) el)

  longer :
      (fuel k : ℕ) (sel : List OutputData)
      → length el < suc (suc fuel) + k
      → k < length sel
      → length el < suc fuel + length sel
  longer fuel k sel f g = omega arith

  -- A front part of `k` coins leaves at most `length el - k` rounds before the last.
  loop_front :
      (fuel k : ℕ)
      → worth el < u64_mod
      → k ≤ length el
      → length el < fuel + k
      → loop fuel (picked (take k el)) ≢ stuck
  unfolding with_fee
  loop_front zero k w b f = absurd (omega arith)
  loop_front (suc zero) k w b f =
      loop_last zero (picked (take k el)) (omega (arith, length-front k b))
  loop_front (suc (suc fuel)) k w b f =
      elim (Bool-cases (leb (picked (take k el)).needed (picked (take k el)).total)) [
        | inl done ↦ loop_done (suc fuel) (picked (take k el)) done
        | inr more ↦ elim (Bool-cases (length (take k el) == length el)) [
          | inl full ↦ loop_last (suc fuel) (picked (take k el)) (ground arith)
          | inr left ↦
              rw (loop_step (suc fuel) (picked (take k el)) more left)
                (elim (IsFull-again (picked (take k el)).needed w) [
                  | inl full ↦ loop_last fuel _ full
                  | inr (front, covers) ↦
                      subst (λ c. loop (suc fuel) (picked c) ≢ stuck) (sym front)
                        (loop_front (suc fuel) (length (again (picked (take k el)).needed)) w
                          (front_short _ front)
                          (longer fuel k (again (picked (take k el)).needed) f (
                            front_grows (length (again (picked (take k el)).needed)) k w more
                              (subst (λ c. (picked (take k el)).needed ≤ worth c) front covers))))
                ])
        ]
      ]

  -- The round after any coins.
  second_round :
      (amount : ℕ) → worth el < u64_mod → loop (suc (length el)) (picked (again amount)) ≢ stuck
  unfolding with_fee
  second_round amount w = elim (IsFull-again amount w) [
    | inl full ↦ loop_last (length el) _ full
    | inr (front, covers) ↦
        subst (λ c. loop (suc (length el)) (picked c) ≢ stuck) (sym front)
          (loop_front (suc (length el)) (length (again amount)) w (front_short _ front)
            (omega arith))
  ]

  any_coins : (p : Picked) → worth el < u64_mod → loop (suc (suc (length el))) p ≢ stuck
  any_coins p w = elim (Bool-cases (leb p.needed p.total)) [
    | inl done ↦ loop_done (suc (length el)) p done
    | inr more ↦ elim (Bool-cases (length p.coins == length el)) [
      | inl full ↦ loop_last (suc (length el)) p (ground arith)
      | inr left ↦ rw (loop_step (suc (length el)) p more left) (second_round p.needed w)
    ]
  ]

  two_more : suc (suc (length el)) ≡ length el + 2
  two_more = omega arith

  -- From any coins, two rounds more than there are eligible outputs are enough.
  loop_ends : (p : Picked) → worth el < u64_mod → loop (length el + 2) p ≢ stuck
  loop_ends p w = subst (λ n. loop n p ≢ stuck) two_more (any_coins p w)

  first_ends :
      (p : Picked) → worth el < u64_mod → first_attempt core outputs r (length el) p ≢ stuck
  unfolding first_attempt
  first_ends p w = ground (arith, loop_ends (picked p.coins) w)

  check_ends : (p : Picked) → check_weight core outputs r p ≢ stuck
  unfolding check_weight
  check_ends p = ground arith

  coins_end : (amount max_outputs : ℕ) → select_sorted amount max_outputs r.select_all el ≢ stuck
  unfolding select_sorted
  coins_end amount max_outputs = ground arith

  -- The selection always ends, whatever the fee function says: where the wallet's outputs are worth
  -- less than 2^64 together, `select_coins_and_fee` does not run out of its rounds, two more than
  -- there are eligible outputs.
  pub select_coins_and_fee-ne-stuck :
      worth outputs < u64_mod → select_coins_and_fee core outputs r ≢ stuck
  unfolding select_coins_and_fee select_coins
  select_coins_and_fee-ne-stuck w =
      >>=-ne-stuck _ _ (>>=-ne-stuck _ _ (coins_end r.amount r.max_outputs) (λ sel e p. cc))
        (λ found e.
          >>=-ne-stuck _ _
            (subst (λ n. first_attempt core outputs r n (with_fee core outputs r found.1 1) ≢ stuck)
              (sym (
                count_found (select_sorted r.amount r.max_outputs r.select_all el) (length el) found
                  e))
              (first_ends _ (lt_of_le_of_lt (worth-candidates-le outputs r) w)))
            (λ p e'. check_ends p))
