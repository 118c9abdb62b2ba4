-- ===== src/Selection/Change/Balance.antt =====
-- The change outputs against the change (`inputs_and_change` of
-- libwallet/src/internal/selection.rs).
use native.Mathlib.Nat.{
  div-add-mod, mod-lt, mod-eq_of_lt, lt_of_le_of_lt, div-eq-sub-div, le-mul_of_pos_right,
  div-le_self, mul-add-mod_self_right,
}
use grin_wallet.Prelude.{
  ℕ, zero, suc, ◌+◌, ◌*◌, ◌/◌, ◌%◌, ◌≤◌, ◌<◌, ◌≡◌, sym, ◌∙◌, ap, inl, inr, List, [], ◌∷◌, ◌==◌,
  if◌then◌else◌, add64, add64_exact, u64_mod, Bool-cases, arith,
}
use grin_wallet.Prelude.Result.{ok, ok_injective}
use grin_wallet.Prelude.Exec.{pure, ◌>>=◌, exec-eq-ok}
use grin_wallet.Backend.{Env, Wallet, next_child}
use grin_wallet.Selection.Change.{
  ChangeOutput, new_change, split_change, change_outputs, build_change,
}

abbrev pub amounts : List ChangeOutput → ℕ
amounts [] = 0
amounts (c ∷ cs) = c.amount + amounts cs

more :
    (part rem left n : ℕ)
    → part + rem < u64_mod
    → n ≡ (if left == 0 then 0 else left * part + rem)
    → (if left == 0 then add64 part rem else part) + n ≡ suc left * part + rem
more part rem zero n b e = grind (arith, add64_exact part rem b)
more part rem (suc left) n b e = grind arith

-- A part that has lost nothing, and one that has.
balance :
    (np p r paid change : ℕ)
    → 0 < p
    → np + r ≡ change
    → paid ≡ np + r % p
    → (r < p → paid ≡ change) × (p ≤ r → paid < change)
balance np p r paid change z e f =
    (λ l. omega (arith, mod-eq_of_lt l), λ l. omega (arith, mod-lt r z))

paid : (n : ℕ) {a b : ℕ} → 0 < n → a ≡ (if n == 0 then 0 else b) → a ≡ b
paid zero z e = absurd (omega arith)
paid (suc n) z e = ground arith

module _ (env : Env) where
  change_outputs-amounts :
      (part rem left : ℕ) (w : Wallet env) (cs : List ChangeOutput)
      → part + rem < u64_mod
      → (change_outputs env part rem left w).0 ≡ ok cs
      → amounts cs ≡ (if left == 0 then 0 else left * part + rem)
  unfolding change_outputs
  change_outputs-amounts part rem zero w cs b e = ap amounts (sym (ok_injective e))
  change_outputs-amounts part rem (suc left) w cs b e =
      let a = if left == 0 then add64 part rem else part in
      let (key, k, f, s) =
        exec-eq-ok (next_child env)
          (λ key. change_outputs env part rem left >>= λ rest. pure (new_change a key ∷ rest)) w
          e in
      let (rest, l, g, t) =
        exec-eq-ok (change_outputs env part rem left) (λ rest. pure (new_change a key ∷ rest))
          (next_child env w).1 f in
      grind (
        arith,
        ap amounts (ok_injective g),
        more part rem left (amounts rest) b
            (change_outputs-amounts part rem left (next_child env w).1 rest b l),
      )

  pub build_change-split :
      (change n : ℕ) (w : Wallet env) (cs : List ChangeOutput)
      → 0 < change
      → (build_change env change n w).0 ≡ ok cs
      → (0 < n)
        × (0 < change / n)
        × (build_change env change n w
            ≡ change_outputs env (change / n) (change % (change / n)) n w)
  unfolding build_change split_change
  build_change-split change n w cs p e = elim (Bool-cases (n == 0)) [
    | inl z ↦ ground arith
    | inr z ↦ elim (Bool-cases (change / n == 0)) [
      | inl y ↦ ground arith
      | inr y ↦ (grind arith, grind arith, ground arith)
    ]
  ]

  split_fits : (change p : ℕ) → 0 < p → p ≤ change → p + change % p ≤ change
  split_fits change p z l =
      grind
        (arith, div-add-mod change p, div-eq-sub-div z l, le-mul_of_pos_right {m = change / p} p)

  remainder_eq : (change n : ℕ) → 0 < change / n → change % (change / n) ≡ change % n % (change / n)
  remainder_eq change n z =
      ap (λ c. c % (change / n)) (sym (div-add-mod change n))
      ∙ mul-add-mod_self_right n (change / n) (change % n)

  -- Where a change is paid, the change outputs amount to all of it exactly when the remainder of its
  -- division by their number is less than the quotient; otherwise they amount to less.
  pub build_change-amounts :
      (change n : ℕ) (w : Wallet env) (cs : List ChangeOutput)
      → 0 < change
      → change < u64_mod
      → (build_change env change n w).0 ≡ ok cs
      → (change % n < change / n → amounts cs ≡ change)
        × (change / n ≤ change % n → amounts cs < change)
  build_change-amounts change n w cs p b e =
      let (z, y, s) = build_change-split change n w cs p e in
      let a =
        change_outputs-amounts (change / n) (change % (change / n)) n w cs
          (lt_of_le_of_lt (split_fits change (change / n) y (div-le_self change n)) b)
          (sym (ap (λ r. r.0) s) ∙ e) in
      balance (n * (change / n)) (change / n) (change % n) (amounts cs) change y
        (div-add-mod change n)
        (paid n z a ∙ ap (λ r. n * (change / n) + r) (remainder_eq change n y))
