-- ===== src/Exchange/Proof/Exported.antt =====
-- What a payment proof shows that is exported and passes its check (`retrieve_payment_proof` and
-- `verify_payment_proof` of libwallet/src/api_impl/owner.rs).
use grin_wallet.Prelude.{ℕ, ◌≡◌, Bool, true, none, some, u64_mod, ◌+◌, ◌≤◌, ◌<◌}
use grin_wallet.Prelude.Result.{Result, ok}
use grin_wallet.Bytes.{Bytes}
use grin_wallet.TxLog.{TxLogEntry, StoredProofInfo}
use grin_wallet.Libtx.{Libtx}
use grin_wallet.Backend.{Env}
use grin_wallet.Updater.Refresh.{NodeClient}
use grin_wallet.Exchange.{Host}
use grin_wallet.Exchange.Proof.Export.{PaymentProof, moved, message_of}

module _ (env : Env) (lib : Libtx) (host : Host lib) where
  -- What a proof shows that was exported of a transaction and passes the check.
  pub record Shows (node : NodeClient) (p : PaymentProof) (tx : TxLogEntry) (mine : Bool × Bool)
      (parent_key_id : ℕ) : Type 0 where
    pub key : Bytes
    pub stored : StoredProofInfo
    pub has_proof : tx.payment_proof ≡ some stored
    pub kernel : tx.kernel_excess ≡ some p.excess
    pub to : p.recipient_address ≡ stored.receiver_address
    pub from : p.sender_address ≡ stored.sender_address
    pub recipient_signed : stored.receiver_signature ≡ some p.recipient_sig
    pub sender_signed : stored.sender_signature ≡ some p.sender_sig
    pub received :
        tx.amount_debited ≤ tx.amount_credited
        → tx.amount_credited < u64_mod
        → p.amount + tx.amount_debited ≡ tx.amount_credited
    pub sent :
        (f : ℕ)
        → tx.fee ≡ some f
        → tx.amount_credited < tx.amount_debited
        → tx.amount_credited + lib.fee (host.fee_of f) ≤ tx.amount_debited
        → tx.amount_debited < u64_mod
        → p.amount + tx.amount_credited + lib.fee (host.fee_of f) ≡ tx.amount_debited
    pub sent_free :
        tx.fee ≡ none
        → tx.amount_credited < tx.amount_debited
        → tx.amount_debited < u64_mod
        → p.amount + tx.amount_credited ≡ tx.amount_debited
    pub mined : node.get_kernel p.excess none ≡ ok true
    pub by_recipient :
        host.verify
          (host.address_of p.recipient_address)
          (message_of env lib host p)
          (host.signature_of p.recipient_sig)
        ≡ true
    pub by_sender :
        host.verify
          (host.address_of p.sender_address)
          (message_of env lib host p)
          (host.signature_of p.sender_sig)
        ≡ true
    pub own_key : host.address_from_derivation_path parent_key_id 0 ≡ ok key
    pub sender_mine : mine.0 ≡ true → host.public_key key ≡ host.address_of p.sender_address
    pub recipient_mine : mine.1 ≡ true → host.public_key key ≡ host.address_of p.recipient_address

  -- What an exported proof takes from the entry.
  record Taken (p : PaymentProof) (tx : TxLogEntry) : Type 0 where
    stored : StoredProofInfo
    has_proof : tx.payment_proof ≡ some stored
    kernel : tx.kernel_excess ≡ some p.excess
    to : p.recipient_address ≡ stored.receiver_address
    from : p.sender_address ≡ stored.sender_address
    recipient_signed : stored.receiver_signature ≡ some p.recipient_sig
    sender_signed : stored.sender_signature ≡ some p.sender_sig
    amount : p.amount ≡ moved env lib host tx
