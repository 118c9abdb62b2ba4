-- ===== src/Context.antt =====
-- The private context of a transaction (libwallet/src/types.rs). Secret keys are byte strings.
use grin_wallet.Prelude.{ℕ, Bool, Option, none, List, [], ◌∷◌, ◌++◌}
use grin_wallet.Bytes.{Bytes}

-- What a late lock takes from `InitTxArgs` (libwallet/src/api_impl/types.rs).
pub record LateLockArgs : Type 0 where
  pub minimum_confirmations : ℕ
  pub max_outputs : ℕ
  pub num_change_outputs : ℕ
  pub selection_strategy_is_use_all : Bool
  pub ttl_blocks : Option ℕ

pub record Context : Type 0 where
  pub parent_key_id : ℕ
  pub sec_key : Bytes
  pub sec_nonce : Bytes
  pub initial_sec_key : Bytes
  pub initial_sec_nonce : Bytes
  -- identifier, mmr index, amount
  pub output_ids : List (ℕ × Option ℕ × ℕ)
  pub input_ids : List (ℕ × Option ℕ × ℕ)
  pub amount : ℕ
  pub fee : Option ℕ
  pub payment_proof_derivation_index : Option ℕ
  pub late_lock_args : Option LateLockArgs
  pub calculated_excess : Option ℕ

-- `with_excess`, from the key and the nonce that were drawn
unfoldable pub with_excess : Bytes → Bytes → ℕ → Context
with_excess sec_key sec_nonce parent_key_id = record {
  parent_key_id = parent_key_id;
  sec_key = sec_key;
  sec_nonce = sec_nonce;
  initial_sec_key = sec_key;
  initial_sec_nonce = sec_nonce;
  output_ids = [];
  input_ids = [];
  amount = 0;
  fee = none;
  payment_proof_derivation_index = none;
  late_lock_args = none;
  calculated_excess = none;
}

unfoldable pub add_output : Context → ℕ → Option ℕ → ℕ → Context
add_output c output_id mmr_index amount = record c {
  output_ids = c.output_ids ++ ((output_id, mmr_index, amount) ∷ []);
}

unfoldable pub add_input : Context → ℕ → Option ℕ → ℕ → Context
add_input c input_id mmr_index amount = record c {
  input_ids = c.input_ids ++ ((input_id, mmr_index, amount) ∷ []);
}
