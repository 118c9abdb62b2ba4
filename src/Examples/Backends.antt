-- ===== src/Examples/Backends.antt =====
-- The theorems on the backend at concrete inputs.
use grin_wallet.Prelude.{ℕ, ◌+◌, ◌^◌, ◌%◌, ◌≡◌, ◌≢◌, refl, Option, none, some, [], ◌∷◌, arith}
use grin_wallet.Prelude.Result.{ok}
use grin_wallet.Bytes.{Bytes, be_bytes, be_bytes-IsBytes}
use grin_wallet.Context.{Context, with_excess}
use grin_wallet.Backend.{next_tx_log_id, to_key_u64}
use grin_wallet.Backend.Keys.{output_key_injective}
use grin_wallet.Backend.Ids.{next_id, next_tx_log_id-next_id}
use grin_wallet.Backend.Contexts.{save_private_context, get_private_context}
use grin_wallet.Backend.Contexts.Masked.{
  get_private_context-save_private_context, initial_secrets_stored,
}
use grin_wallet.Examples.{env, wallet}

abbrev pub key : Bytes
key = be_bytes 32 123456789

abbrev pub secret : Bytes
secret = be_bytes 32 987654321

abbrev slate_id : Bytes
slate_id = be_bytes 16 42

abbrev pub context : Context
context = record {
  parent_key_id = 1;
  sec_key = key;
  sec_nonce = secret;
  initial_sec_key = key;
  initial_sec_nonce = secret;
  output_ids = [];
  input_ids = [];
  amount = 20;
  fee = some 9;
  payment_proof_derivation_index = none;
  late_lock_args = none;
  calculated_excess = none;
}

get_private_context-save_private_context_example :
    ((save_private_context env slate_id context wallet).0 ≡ ok tt)
    × ((get_private_context env slate_id (save_private_context env slate_id context wallet).1).0
        ≡ ok context)
get_private_context-save_private_context_example =
    get_private_context-save_private_context env slate_id context wallet (7 ∷ []) refl refl
      (be_bytes-IsBytes 32 123456789) (be_bytes-IsBytes 32 987654321) (omega arith)

initial_secrets_stored_example :
    (s : Context) × (env.get
        (save_private_context env slate_id (with_excess key secret 1) wallet).1.contexts
        (to_key_u64 slate_id 0)
      ≡ some s)
    × (s.initial_sec_key ≡ key)
    × (s.initial_sec_nonce ≡ secret)
initial_secrets_stored_example =
    initial_secrets_stored env slate_id key secret (7 ∷ []) 1 wallet refl (omega arith)

output_key_injective_example : (◌≡◌ {A = ℕ} 11 11) × (◌≡◌ {A = Option ℕ} (some 5) (some 5))
output_key_injective_example =
    output_key_injective 11 11 (some 5) (some 5) (omega arith) (omega arith) (omega arith)
      (omega arith) refl

one_two : ◌≢◌ {A = ℕ} 1 2
one_two e = omega (arith, e)

next_tx_log_id-next_id_example :
    ((next_tx_log_id env 1 wallet).0 ≡ ok (next_id env 1 wallet))
    × (next_id env 1 (next_tx_log_id env 1 wallet).1 ≡ (next_id env 1 wallet + 1) % 2 ^ 32)
    × (next_id env 2 (next_tx_log_id env 1 wallet).1 ≡ next_id env 2 wallet)
next_tx_log_id-next_id_example =
    next_tx_log_id-next_id env 1 2 wallet (omega arith) (omega arith) one_two
