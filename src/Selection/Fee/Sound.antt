-- ===== src/Selection/Fee/Sound.antt =====
-- What a successful `select_coins_and_fee` returns (libwallet/src/internal/selection.rs).
use grin_wallet.Prelude.{
  ℕ, zero, suc, ◌+◌, ◌≤◌, ◌<◌, ◌≡◌, refl, sym, ap, ◌∙◌, ◌&&◌, ◌⊎◌, inl, inr, List, ltb, leb, ◌==◌,
  if◌then◌else◌, length, All, add64_exact, u64_mod, Bool-cases, arith,
}
use mathlib.Core.Path.{subst}
use grin_wallet.Prelude.Result.{Result, ok, ◌>>=◌, >>=-eq-ok, ok_injective}
use grin_wallet.Core.{Core}
use grin_wallet.Output.{OutputData}
use grin_wallet.Selection.{Request, candidates, select_sorted, select_coins}
use grin_wallet.Selection.Cover.{worth, total_of_lem}
use grin_wallet.Selection.Worth.{worth-select_sorted-le}
use grin_wallet.Selection.Candidates.{
  IsCandidate, candidates-IsCandidate, All-select_sorted, worth-candidates-le,
}
use grin_wallet.Selection.Fee.{
  Picked, amount_with_fee, with_fee, raise_loop, first_attempt, check_weight, select_coins_and_fee,
}

paired_inv :
    (m : Result (List OutputData)) (n : ℕ) (found : ℕ × List OutputData)
    → (m >>= λ sel. ok (n, sel)) ≡ ok found
    → m ≡ ok found.1
paired_inv m n found e = ground arith

module _ (core : Core) (outputs : List OutputData) (r : Request) where
  -- The amounts of the request fit 64 bits: the wallet's outputs, and the amount with the fee of any
  -- coins that a selection from them may choose.
  pub record Fits : Type 0 where
    pub wallet : worth outputs < u64_mod
    pub asked :
        (sel : List OutputData) (amount max_outputs num_outputs : ℕ)
        → select_sorted amount max_outputs r.select_all (candidates outputs r) ≡ ok sel
        → num_outputs ≤ r.change_outputs + 1
        → r.amount + core.tx_fee (length sel) num_outputs 1 < u64_mod

  abbrev pub IsFeeOf : List OutputData → ℕ → Type 0
  IsFeeOf coins fee =
      (fee ≡ core.tx_fee (length coins) 1 1)
      ⊎ (fee ≡ core.tx_fee (length coins) (r.change_outputs + 1) 1)

  record IsPicked (p : Picked) : Type 0 where
    eligible : All (IsCandidate r) p.coins
    bounded : worth p.coins < u64_mod
    counted : p.total ≡ worth p.coins
    asked : p.needed ≡ (if r.amount_includes_fee then r.amount else r.amount + p.fee)
    priced : IsFeeOf p.coins p.fee

  module _ (fits : Fits) where
    needed_exact :
        (inputs num_outputs : ℕ)
        → r.amount + core.tx_fee inputs num_outputs 1 < u64_mod
        → amount_with_fee r (core.tx_fee inputs num_outputs 1) ≡ (
            if r.amount_includes_fee then r.amount else r.amount + core.tx_fee inputs num_outputs 1)
    unfolding amount_with_fee
    needed_exact inputs num_outputs b =
        ground (arith, add64_exact r.amount (core.tx_fee inputs num_outputs 1))

    worth_bounded :
        (sel : List OutputData) (amount max_outputs : ℕ)
        → select_sorted amount max_outputs r.select_all (candidates outputs r) ≡ ok sel
        → worth sel < u64_mod
    worth_bounded sel amount max_outputs e = omega (
      arith,
      worth-select_sorted-le amount max_outputs r.select_all (candidates outputs r) sel e,
      worth-candidates-le outputs r,
      fits.wallet,
    )

    with_fee-IsPicked :
        (sel : List OutputData) (amount max_outputs num_outputs : ℕ)
        → select_sorted amount max_outputs r.select_all (candidates outputs r) ≡ ok sel
        → num_outputs ≤ r.change_outputs + 1
        → IsFeeOf sel (core.tx_fee (length sel) num_outputs 1)
        → IsPicked (with_fee core outputs r sel num_outputs)
    unfolding with_fee
    with_fee-IsPicked sel amount max_outputs num_outputs e bound price = record {
      eligible =
          All-select_sorted (IsCandidate r) amount max_outputs r.select_all _ sel e
            (candidates-IsCandidate outputs r);
      bounded = worth_bounded sel amount max_outputs e;
      counted = total_of_lem sel (worth_bounded sel amount max_outputs e);
      asked =
          needed_exact (length sel) num_outputs
            (fits.asked sel amount max_outputs num_outputs e bound);
      priced = price;
    }

    found_inv :
        (amount max_outputs : ℕ) (found : ℕ × List OutputData)
        → select_coins outputs r amount max_outputs ≡ ok found
        → select_sorted amount max_outputs r.select_all (candidates outputs r) ≡ ok found.1
    unfolding select_coins
    found_inv amount max_outputs found e = paired_inv _ _ found e

    raise_loop_sound :
        (fuel n : ℕ) (p q : Picked)
        → IsPicked p
        → raise_loop core outputs r fuel n p ≡ ok q
        → IsPicked q × (q.needed ≤ q.total)
    unfolding raise_loop
    raise_loop_sound zero n p q h e = cc
    raise_loop_sound (suc fuel) n p q h e = elim (Bool-cases (leb p.needed p.total)) [
      | inl done ↦
          subst (λ x. IsPicked x × (x.needed ≤ x.total)) (ok_injective (rw done at e))
            (h, ground arith)
      | inr more ↦ elim (Bool-cases (length p.coins == n)) [
        | inl full ↦ cc (rw (more, full) at e)
        | inr left ↦
            let (found, chosen, rest) =
              >>=-eq-ok (select_coins outputs r p.needed n) _ (rw (more, left) at e) in
            raise_loop_sound fuel n (with_fee core outputs r found.1 (r.change_outputs + 1)) q
              (with_fee-IsPicked found.1 p.needed n (r.change_outputs + 1)
                (found_inv p.needed n found chosen) (omega arith) (inr refl))
              rest
      ]
    ]

    first_attempt_sound :
        (n : ℕ) (p q : Picked)
        → IsPicked p
        → IsPicked (with_fee core outputs r p.coins (r.change_outputs + 1))
        → first_attempt core outputs r n p ≡ ok q
        → IsPicked q × (q.needed ≤ q.total)
    unfolding first_attempt
    first_attempt_sound n p q h h' e = elim (Bool-cases (p.total == 0)) [
      | inl empty ↦ cc (rw empty at e)
      | inr value ↦ elim (Bool-cases (ltb p.total p.needed && (length p.coins == n))) [
        | inl short ↦ cc (rw (value, short) at e)
        | inr enough ↦ elim (Bool-cases (p.total == p.needed)) [
          | inl exact ↦
              subst (λ x. IsPicked x × (x.needed ≤ x.total))
                (ok_injective (rw (value, enough, exact) at e)) (h, ground arith)
          | inr change ↦ raise_loop_sound (n + 2) n _ q h' (rw (value, enough, change) at e)
        ]
      ]
    ]

    check_weight_inv :
        (q : Picked) (coins : List OutputData) (total amount fee : ℕ)
        → check_weight core outputs r q ≡ ok (coins, total, amount, fee)
        → (coins ≡ q.coins)
          × (total ≡ q.total)
          × (fee ≡ q.fee)
          × ((if r.amount_includes_fee then amount + fee else amount) ≡ r.amount)
    unfolding check_weight
    check_weight_inv q coins total amount fee e = ground arith

  -- What the selection promises of its answer.
  pub record IsSelection (coins : List OutputData) (total amount fee : ℕ) : Type 0 where
    pub eligible : All (IsCandidate r) coins
    pub bounded : worth coins < u64_mod
    pub counted : total ≡ worth coins
    pub covers : amount + fee ≤ total
    pub priced : IsFeeOf coins fee
    pub asked : (if r.amount_includes_fee then amount + fee else amount) ≡ r.amount

  picked-IsSelection :
      (q : Picked) (coins : List OutputData) (total amount fee : ℕ)
      → IsPicked q
      → q.needed ≤ q.total
      → (coins ≡ q.coins)
        × (total ≡ q.total)
        × (fee ≡ q.fee)
        × ((if r.amount_includes_fee then amount + fee else amount) ≡ r.amount)
      → IsSelection coins total amount fee
  picked-IsSelection q coins total amount fee h k (c, t, f, a) = record {
    eligible = rw c h.eligible;
    bounded = rw c h.bounded;
    counted = t ∙ h.counted ∙ ap worth (sym c);
    covers = ground (arith, h.asked);
    priced = rw (c, f) h.priced;
    asked = a;
  }

  -- A successful `select_coins_and_fee`, of a wallet and a request that fit 64 bits, returns coins
  -- of the account that may be spent, their value, and an amount and a fee that the coins cover. The
  -- fee is that of a transaction of the coins with one output or with all change outputs, and the
  -- amount is the request's, less the fee where the request includes it.
  pub select_coins_and_fee-IsSelection :
      Fits
      → (coins : List OutputData) (total amount fee : ℕ)
      → select_coins_and_fee core outputs r ≡ ok (coins, total, amount, fee)
      → IsSelection coins total amount fee
  unfolding select_coins_and_fee with_fee
  select_coins_and_fee-IsSelection fits coins total amount fee e =
      let (found, chosen, rest) = >>=-eq-ok (select_coins outputs r r.amount r.max_outputs) _ e in
      let (q, tried, checked) =
        >>=-eq-ok (first_attempt core outputs r found.0 (with_fee core outputs r found.1 1)) _
          rest in
      let sorted = found_inv fits r.amount r.max_outputs found chosen in
      let (h, k) =
        first_attempt_sound fits found.0 (with_fee core outputs r found.1 1) q
          (with_fee-IsPicked fits found.1 r.amount r.max_outputs 1 sorted (omega arith) (inl refl))
          (with_fee-IsPicked fits found.1 r.amount r.max_outputs (r.change_outputs + 1) sorted
            (omega arith) (inr refl))
          tried in
      picked-IsSelection q coins total amount fee h k
        (check_weight_inv fits q coins total amount fee checked)
