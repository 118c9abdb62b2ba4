-- ===== src/Examples/Receiving.antt =====
-- The theorems on received slates at a concrete wallet and slate.
use grin_wallet.Prelude.{
  ◌==◌, ℕ, ◌≡◌, ◌≢◌, refl, Bool, true, false, none, some, [], ◌∷◌, filter, find?, any, opt_eq,
  if◌then◌else◌, Bool-cases, inl, inr, ap, some_injective,
}
use grin_wallet.Prelude.Result.{ok, err, Error}
use grin_wallet.Bytes.{Bytes, be_bytes, bytes_eq}
use grin_wallet.Store.Assoc.{lookup, values}
use grin_wallet.Prelude.Sort.{sort_by, insert_by}
use grin_wallet.TxLog.{TxLogEntry, standard2, tx_received, new_tx_log_entry}
use grin_wallet.Slate.{plain}
use grin_wallet.Libtx.{plain as plain_kernel}
use grin_wallet.Slates.{
  Slate, add_transaction_elements, add_participant_info, calc_excess, adjust_offset,
  remove_other_sigdata, derive_keys, kept_sig, kernel_features, msg_to_sign, update_kernel,
}
use grin_wallet.Slates.Signing.{fill_round_2, set_sig, verify_each, verify_part_sigs}
use grin_wallet.Context.{with_excess, add_output}
use grin_wallet.Updater.Query.{is_listed, listed_txs}
use grin_wallet.Backend.{
  Wallet, to_key_u64, id_bytes, next_child, next_tx_log_id, save, save_tx_log_entry,
  current_child_index, last_confirmed_height_for_parent, output_key, save_child_index,
}
use grin_wallet.Exchange.{
  Host, update_tx_slate_state, check_ttl, create_payment_proof_signature, payment_proof_message,
}
use grin_wallet.Exchange.Misfiled.{update_tx_slate_state_overwrites}
use grin_wallet.Exchange.Receive.{
  receive_tx, add_output_to_slate, build_recipient_output, dest_account, is_received, receive_at,
  written,
}
use grin_wallet.Exchange.Receive.Once.{receive_tx_once}
use grin_wallet.Examples.{env, wallet, sent as sent_entry}
use grin_wallet.Examples.Toy.{toy, same, same_iff, ToyTx, no_tx}
use grin_wallet.Examples.Exchanges.{sent}
use grin_wallet.Examples.Backends.{key, secret}

abbrev pub bit : Bool → ℕ
bit true = 1
bit false = 0

pub read_bit : (a : Bool) → (bit a == 1) ≡ a
read_bit true = refl
read_bit false = refl

abbrev pub host : Host toy
host = record {
  commitment_code = bit;
  fee_code = bit;
  fee_of = λ n. true;
  address_code = bit;
  signature_code = bit;
  commitment_of = λ n. n == 1;
  address_of = λ n. n == 1;
  signature_of = λ n. n == 1;
  read_address = read_bit;
  address_eq = same;
  address_eq_iff = same_iff;
  public_key = λ k. true;
  try_fee = λ n. ok true;
  new_fee = λ m n. ok true;
  valid_header_version = λ h v. false;
  post_tx = λ t b. ok tt;
  as_opt = λ f. some f;
  sec_key = key;
  sec_nonce = secret;
  address_from_derivation_path = λ p i. ok key;
  onion_address = λ k. ok true;
  commitment_bytes = λ c. bit c ∷ [];
  address_bytes = λ a. bit a ∷ [];
  sign = λ k m. true;
  verify = λ a m s. true;
  store_tx = λ i t. ok tt;
  get_chain_tip = ok 90;
}

abbrev pub received_tx : ToyTx
received_tx = record no_tx {
  outs = record { features = plain; commit = true; proof = true } ∷ [];
  kers = record { features = plain_kernel true; excess = false; excess_sig = false } ∷ [];
}

abbrev pub answer : Slate toy
answer = record sent {
  tx = some received_tx;
  state = standard2;
  amount = 0;
  fee_fields = false;
  participant_data =
      record { public_blind_excess = false; public_nonce = false; part_sig = some true } ∷ [];
}

received : (receive_tx env toy host sent none false wallet).0 ≡ ok answer
unfolding receive_tx any sort_by filter values new_tx_log_entry next_child add_transaction_elements
    next_tx_log_id save save_tx_log_entry add_participant_info fill_round_2 with_excess be_bytes
    calc_excess adjust_offset remove_other_sigdata current_child_index
    last_confirmed_height_for_parent output_key save_child_index to_key_u64 bytes_eq add_output
    add_output_to_slate build_recipient_output dest_account is_received receive_at written check_ttl
    create_payment_proof_signature payment_proof_message update_tx_slate_state find? insert_by
    set_sig verify_each verify_part_sigs derive_keys kept_sig kernel_features msg_to_sign
    update_kernel is_listed listed_txs lookup
received = refl

no_entry :
    (k : Bytes) (t : TxLogEntry)
    → lookup ((to_key_u64 (id_bytes 1) 3, sent_entry) ∷ []) k ≡ some t
    → t.tx_slate_id ≢ some 5
unfolding lookup new_tx_log_entry
no_entry k t e = elim (Bool-cases (bytes_eq (to_key_u64 (id_bytes 1) 3) k)) [
  | inl b ↦ λ f. cc (ap (λ x. x.tx_slate_id) (some_injective (rw b at e)))
  | inr b ↦ cc
]

receive_tx_once_example :
    (x : Error) × (receive_tx env toy host sent none false
        (receive_tx env toy host sent none false wallet).1
      ≡ (err x, (receive_tx env toy host sent none false wallet).1))
receive_tx_once_example = receive_tx_once env toy host sent answer none wallet no_entry received

-- A transaction from the account 2 to the account 1 of the same wallet.
abbrev from_other : TxLogEntry
from_other = record sent_entry { parent_key_id = 2; id = 0; tx_slate_id = some 5 }

abbrev to_this : TxLogEntry
to_this = record sent_entry { id = 0; tx_type = tx_received; tx_slate_id = some 5 }

abbrev self_sent : Wallet env
self_sent = record wallet {
  tx_logs = (to_key_u64 (id_bytes 2) 0, from_other) ∷ (to_key_u64 (id_bytes 1) 0, to_this) ∷ [];
}

first_found :
    find? (λ tx. opt_eq tx.tx_slate_id (some 5)) (values [] self_sent.tx_logs) ≡ some from_other
unfolding find? values any new_tx_log_entry bytes_eq to_key_u64 be_bytes
first_found = refl

update_tx_slate_state_overwrites_example :
    ((update_tx_slate_state env toy host 1 answer self_sent).0 ≡ ok tt)
    × ((j : Bytes)
        → lookup (update_tx_slate_state env toy host 1 answer self_sent).1.tx_logs j ≡ (
            if bytes_eq (to_key_u64 (id_bytes 1) from_other.id) j
            then some (record from_other { tx_slate_state = some answer.state })
            else lookup self_sent.tx_logs j))
    × (from_other.parent_key_id ≢ 1
        → (v : TxLogEntry) × (lookup
              (update_tx_slate_state env toy host 1 answer self_sent).1.tx_logs
              (to_key_u64 (id_bytes 1) from_other.id)
            ≡ some v)
          × (v.parent_key_id ≢ 1))
update_tx_slate_state_overwrites_example =
    update_tx_slate_state_overwrites env toy host 1 answer self_sent from_other refl first_found
