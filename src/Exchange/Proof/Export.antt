-- ===== src/Exchange/Proof/Export.antt =====
-- Payment proofs that are exported and checked (`retrieve_payment_proof`, from the transactions
-- that it retrieves on, and `verify_payment_proof` of libwallet/src/api_impl/owner.rs).
use grin_wallet.Prelude.{
  ℕ, Bool, true, false, Option, none, some, List, [], ◌∷◌, leb, if◌then◌else◌, sub64,
}
use grin_wallet.Prelude.Result.{
  Result, ok, err, panic, stuck, payment_proof, payment_proof_retrieval, ◌>>=◌, ◌>>◌,
}
use grin_wallet.Bytes.{Bytes}
use grin_wallet.TxLog.{TxLogEntry}
use grin_wallet.Libtx.{Libtx}
use grin_wallet.Backend.{Env}
use grin_wallet.Updater.Refresh.{NodeClient}
use grin_wallet.Exchange.{Host, payment_proof_message}

-- `PaymentProof`, with the numbers that stand for excess, addresses and signatures in the records
-- of the wallet.
pub record PaymentProof : Type 0 where
  pub amount : ℕ
  pub excess : ℕ
  pub recipient_address : ℕ
  pub recipient_sig : ℕ
  pub sender_address : ℕ
  pub sender_sig : ℕ

module _ (env : Env) (lib : Libtx) (host : Host lib) where
  abbrev pub fee_or_zero : Option ℕ → ℕ
  fee_or_zero none = 0
  fee_or_zero (some f) = lib.fee (host.fee_of f)

  -- What a transaction moved, without the fee of one that was sent.
  abbrev pub moved : TxLogEntry → ℕ
  moved tx =
      if leb tx.amount_debited tx.amount_credited
      then sub64 tx.amount_credited tx.amount_debited
      else sub64 (sub64 tx.amount_debited tx.amount_credited) (fee_or_zero tx.fee)

  abbrev pub present : {A : Type 0} → Option A → Result A
  present none = err payment_proof_retrieval
  present (some a) = ok a

  -- What is exported of the transactions that were found.
  unfoldable pub exported_proof : List TxLogEntry → Result PaymentProof
  exported_proof [] = err payment_proof_retrieval
  exported_proof (tx ∷ t ∷ ts) = err payment_proof_retrieval
  exported_proof (tx ∷ []) = do
    proof ← present tx.payment_proof
    excess ← present tx.kernel_excess
    r_sig ← present proof.receiver_signature
    s_sig ← present proof.sender_signature
    ok (record {
      amount = moved tx;
      excess = excess;
      recipient_address = proof.receiver_address;
      recipient_sig = r_sig;
      sender_address = proof.sender_address;
      sender_sig = s_sig;
    })

  -- The kernel is on the chain.
  abbrev pub on_chain : Result Bool → Result (Unit {0})
  on_chain (ok true) = ok tt
  on_chain (ok false) = err payment_proof
  on_chain (err e) = err payment_proof
  on_chain panic = panic
  on_chain stuck = stuck

  abbrev pub message_of : PaymentProof → Bytes
  message_of p =
      payment_proof_message env lib host p.amount (host.commitment_of p.excess)
        (host.address_of p.sender_address)

  abbrev pub valid : ℕ → Bytes → ℕ → Result (Unit {0})
  valid address msg sig =
      if host.verify (host.address_of address) msg (host.signature_of sig)
      then ok tt
      else err payment_proof

  -- Whether the sender and the recipient are the account `parent_key_id` of the wallet.
  unfoldable pub verify_payment_proof : NodeClient → PaymentProof → ℕ → Result (Bool × Bool)
  verify_payment_proof node p parent_key_id = do
    env.unlocked
    on_chain (node.get_kernel p.excess none)
    valid p.recipient_address (message_of p) p.recipient_sig
    valid p.sender_address (message_of p) p.sender_sig
    key ← host.address_from_derivation_path parent_key_id 0
    ok (
      host.address_eq (host.public_key key) (host.address_of p.sender_address),
      host.address_eq (host.public_key key) (host.address_of p.recipient_address),
    )
