-- ===== src/Prelude/Result.antt =====
-- Results of fallible operations (libwallet/src/error.rs). A constant message is left out of its
-- error. `panic` is the abort of the thread, by a division by zero or an empty window, and `stuck` is no
-- value of the program: a loop ran out of the fuel of the model.
use mathlib.Core.Path.{◌≡◌, refl, ap}
use mathlib.Core.Logic.{◌≢◌}
use mathlib.Core.Option.{Option, none, some}
use Prim.Native.Nat.{ℕ}

pub data Error : Type 0 where
  -- available, needed
  not_enough_funds : ℕ → ℕ → Error
  -- the largest amount, its fee and its number of inputs
  big_amount_error : ℕ → ℕ → ℕ → Error
  fee_error generic_error slate_state transaction_expired slate_transaction_required : Error
  transaction_doesnt_exist transaction_not_cancellable transaction_already_received : Error
  transaction_was_cancelled payment_proof_retrieval : Error
  not_found account_label_already_exists unknown_account_label payment_proof : Error
  invalid_keychain_mask keychain_doesnt_exist backend keychain : Error
  slatepack_deser invalid_slatepack_data corrupted_data unexpected_data too_large_read : Error
  invalid_kernel_features unknown_kernel_features : ℕ → Error
  kernel_features_missing commit_error secp lib_tx transaction : Error
  -- an error that the node reports
  node : Error

pub data Result {ℓ} (A : Type ℓ) : Type ℓ where
  ok : A → Result A
  err : Error → Result A
  panic : Result A
  stuck : Result A

infixl 5 ◌>>◌
module _ {ℓ κ} {A : Type ℓ} {B : Type κ} where
  infixl 5 ◌>>=◌
  -- `?`: what comes next sees the value of a success only.
  abbrev pub ◌>>=◌ : Result A → (A → Result B) → Result B
  panic >>= next = panic
  stuck >>= next = stuck
  err e >>= next = err e
  ok a >>= next = next a

  -- Where a chain succeeds, its first step has.
  pub >>=-eq-ok :
      (r : Result A) (next : A → Result B) {out : B}
      → (r >>= next) ≡ ok out
      → (mid : A) × (r ≡ ok mid) × (next mid ≡ ok out)
  >>=-eq-ok panic next e = cc
  >>=-eq-ok stuck next e = cc
  >>=-eq-ok (err x) next e = cc
  >>=-eq-ok (ok mid) next e = (mid, refl, e)

  -- A chain of steps that end ends.
  pub >>=-ne-stuck :
      (r : Result A) (next : A → Result B)
      → r ≢ stuck
      → ((a : A) → r ≡ ok a → next a ≢ stuck)
      → (r >>= next) ≢ stuck
  >>=-ne-stuck panic next hr hn = λ p. cc
  >>=-ne-stuck stuck next hr hn = absurd (hr refl)
  >>=-ne-stuck (err x) next hr hn = λ p. cc
  >>=-ne-stuck (ok a) next hr hn = hn a refl

abbrev pub ◌>>◌ {ℓ} : {B : Type ℓ} → Result (Unit {0}) → Result B → Result B
first >> second = first >>= λ u. second

-- `ok_or`
abbrev pub ok_or {ℓ} : {A : Type ℓ} → Option A → Error → Result A
ok_or none e = err e
ok_or (some a) e = ok a

abbrev ok_value {ℓ} : {A : Type ℓ} → A → Result A → A
ok_value d (ok a) = a
ok_value d _ = d

pub ok_injective {ℓ} : {A : Type ℓ} {a b : A} → ok a ≡ ok b → a ≡ b
ok_injective {a} e = ap (ok_value a) e
