-- ===== src/Examples/Proofs.antt =====
-- The theorems on payment proofs at a concrete wallet and slate.
use grin_wallet.Prelude.{◌≡◌, refl, true, Option, none, some, List, [], ◌∷◌, filter, any}
use grin_wallet.Prelude.Result.{ok}
use grin_wallet.Bytes.{be_bytes, bytes_eq}
use grin_wallet.Store.Assoc.{values}
use grin_wallet.Prelude.Sort.{sort_by, insert_by}
use grin_wallet.TxLog.{TxLogEntry, StoredProofInfo, new_tx_log_entry}
use grin_wallet.Context.{Context}
use grin_wallet.Slates.{Slate, PaymentInfo, calc_excess}
use grin_wallet.Updater.Query.{listed_txs, is_listed}
use grin_wallet.Backend.{Wallet, to_key_u64, id_bytes}
use grin_wallet.Exchange.Complete.{verify_slate_payment_proof}
use grin_wallet.Exchange.Receive.{prove}
use grin_wallet.Exchange.Proof.{Agrees, entries, verify_slate_payment_proof-Agrees}
use grin_wallet.Updater.Refresh.{NodeClient}
use grin_wallet.Exchange.Proof.Export.{PaymentProof, moved}
use grin_wallet.Exchange.Proof.Accepted.{Partners, verify_slate_payment_proof-prove}
use grin_wallet.Examples.{env, wallet, sent as sent_entry}
use grin_wallet.Examples.Backends.{key}
use grin_wallet.Examples.Toy.{toy}
use grin_wallet.Examples.Receiving.{host, answer}
use grin_wallet.Examples.Sending.{spending}

partners : Partners toy host host
partners = record {
  same_commitments = λ c. refl;
  same_addresses = λ a. refl;
  signs = λ k m a e. refl;
}

abbrev asked : PaymentInfo toy
asked = record { sender_address = true; receiver_address = true; receiver_signature = none }

abbrev recorded : StoredProofInfo
recorded = record {
  receiver_address = 1;
  receiver_signature = none;
  sender_address_path = 0;
  sender_address = 1;
  sender_signature = none;
}

abbrev entry : TxLogEntry
entry = record sent_entry { tx_slate_id = some 5; payment_proof = some recorded }

abbrev waiting : Wallet env
waiting = record wallet { tx_logs = (to_key_u64 (id_bytes 1) 3, entry) ∷ [] }

abbrev asking : Context
asking = record spending { payment_proof_derivation_index = some 0 }

abbrev answered : Slate toy
answered = record answer {
  amount = 20;
  payment_proof = some (record asked { receiver_signature = some true });
}

excess : calc_excess toy answered ≡ ok true
unfolding calc_excess
excess = refl

first_entry : entries env toy host 1 asking answered waiting ≡ entry ∷ []
unfolding listed_txs is_listed values any filter sort_by insert_by new_tx_log_entry to_key_u64
    be_bytes bytes_eq
first_entry = refl

verify_slate_payment_proof-prove_example :
    (q : Option (PaymentInfo toy)) × (prove env toy host 2
        (record answer { amount = 20 })
        true
        (some asked)
        wallet
      ≡ (ok q, wallet))
    × (answered.payment_proof ≡ q
        → verify_slate_payment_proof env toy host 1 asking answered waiting ≡ (ok tt, waiting))
verify_slate_payment_proof-prove_example =
    verify_slate_payment_proof-prove env env toy host host partners 2 1 0 asking
      (record answer { amount = 20 }) answered true asked key key refl refl refl refl refl refl
      excess refl entry [] recorded wallet waiting first_entry refl refl

verifies : (verify_slate_payment_proof env toy host 1 asking answered waiting).0 ≡ ok tt
unfolding verify_slate_payment_proof listed_txs is_listed values any filter sort_by insert_by
    new_tx_log_entry to_key_u64 be_bytes bytes_eq calc_excess
verifies = refl

verify_slate_payment_proof-Agrees_example :
    (tx : TxLogEntry) × (rest : List TxLogEntry) × (entries env toy host 1 asking answered waiting
      ≡ tx ∷ rest)
    × Agrees env toy host 1 asking answered tx.payment_proof answered.payment_proof
verify_slate_payment_proof-Agrees_example =
    verify_slate_payment_proof-Agrees env toy host 1 asking answered waiting verifies

-- An entry that was finalized, and what is exported of it.
abbrev final_entry : TxLogEntry
final_entry = record entry {
  payment_proof = some (record recorded { receiver_signature = some 1; sender_signature = some 1 });
  kernel_excess = some 1;
  amount_debited = 40;
  amount_credited = 11;
  fee = some 1;
}

abbrev shown : PaymentProof
shown = record {
  amount = moved env toy host final_entry;
  excess = 1;
  recipient_address = 1;
  recipient_sig = 1;
  sender_address = 1;
  sender_sig = 1;
}

abbrev chain : NodeClient
chain = record {
  get_chain_tip = ok 90;
  get_outputs_from_node = λ cs. ok (λ c. none);
  get_kernel = λ e h. ok true;
}
