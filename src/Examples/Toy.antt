-- ===== src/Examples/Toy.antt =====
-- Transactions over the formats of the example slate: keys, signatures and commitments are Booleans,
-- and every signature verifies.
use grin_wallet.Prelude.{
  ◌%◌, ◌≡◌, refl, ◌↔◌, Bool, true, false, not, List, [], ◌∷◌, ◌==◌, ◌++◌, arith,
}
use grin_wallet.Prelude.Result.{ok}
use grin_wallet.Bytes.{Bytes}
use grin_wallet.Slate.{plain}
use grin_wallet.Libtx.{Libtx, Parts, KeyEq, TxKernel, Input, Output, features_and_commit}
use grin_wallet.Selection.Change.{Part, output, input, coinbase_input}
use grin_wallet.Examples.Slates.{formats}

pub record ToyTx : Type 0 where
  pub ins : List (Input formats)
  pub outs : List (Output formats)
  pub kers : List (TxKernel formats)
  pub off : Bool

abbrev pub no_tx : ToyTx
no_tx = record { ins = []; outs = []; kers = []; off = false }

abbrev pub same : Bool → Bool → Bool
same true b = b
same false b = not b

abbrev pub odd : Bytes → Bool
odd [] = false
odd (b ∷ bs) = b % 2 == 1

-- An output goes behind the others, and an input too.
abbrev pub append : ToyTx → Part → ToyTx
append t (output v k) = record t {
  outs = t.outs ++ (record { features = plain; commit = true; proof = true } ∷ []);
}
append t (input v k) = record t { ins = t.ins ++ (record { features = plain; commit = true } ∷ []) }
append t (coinbase_input v k) = record t {
  ins = t.ins ++ (record { features = plain; commit = true } ∷ []);
}

abbrev pub append_all : ToyTx → List Part → ToyTx
append_all t [] = t
append_all t (e ∷ es) = append_all (append t e) es

abbrev pub toy : Libtx
toy = record {
  ext = formats;
  Transaction = ToyTx;
  Message = Bool;
  key_eq = same;
  from_secret_key = λ k. ok (odd k);
  from_combination = λ ks. ok true;
  from_pubkey = λ k. ok k;
  zero_commitment = false;
  zero_signature = false;
  kernel_sig_msg = λ f. ok true;
  relative_height = λ h. ok h;
  calculate_partial_sig = λ k n ns bs m. ok true;
  verify_partial_sig = λ s ns k bs m. ok tt;
  add_signatures = λ ss n. ok true;
  verify_completed_sig = λ s k ks m. ok tt;
  zero_blind = false;
  blind_of = odd;
  derive_key = λ a i. ok (i ∷ []);
  blind_sum = λ add sub. ok true;
  empty_transaction = no_tx;
  inputs = λ t. features_and_commit t.ins;
  outputs = λ t. t.outs;
  kernels = λ t. t.kers;
  tx_fee = λ t. 100;
  replace_inputs = λ t is. record t { ins = is };
  replace_outputs = λ t os. record t { outs = os };
  replace_kernel = λ t k. record t { kers = k ∷ [] };
  with_kernel = λ t k. record t { kers = t.kers ++ (k ∷ []) };
  with_offset = λ t b. record t { off = b };
  with_features = λ f. record { features = f; excess = false; excess_sig = false };
  partial_transaction = λ t es. ok (append_all t es, true);
  verify_kernel = λ k. ok tt;
  validate = λ t. ok tt;
  new_v4 = 5;
}

pub toy_parts : Parts toy
toy_parts = record {
  inputs-replace_inputs = λ t is. refl;
  inputs-replace_outputs = λ t os. refl;
  inputs-with_offset = λ t b. refl;
  outputs-replace_outputs = λ t os. refl;
  outputs-with_offset = λ t b. refl;
  kernels-with_kernel = λ k. refl;
  kernels-replace_kernel = λ t k. refl;
  kernels-replace_inputs = λ t is. refl;
  kernels-replace_outputs = λ t os. refl;
  kernels-with_offset = λ t b. refl;
}

pub same_iff : (a b : Bool) → (same a b ≡ true) ↔ (a ≡ b)
same_iff true true = ground arith
same_iff true false = ground arith
same_iff false true = ground arith
same_iff false false = ground arith

pub toy_keys : KeyEq toy
toy_keys = record { key_eq_iff = same_iff }
