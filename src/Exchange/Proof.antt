-- ===== src/Exchange/Proof.antt =====
-- Payment proofs between the parties (`verify_slate_payment_proof` of
-- libwallet/src/internal/tx.rs and the proof that `receive_tx` of
-- libwallet/src/api_impl/foreign.rs makes).
pub mod Accepted
pub mod Export
pub mod Exported
use grin_wallet.Prelude.{
  ℕ, ◌≡◌, refl, ap, ◌⊎◌, inl, inr, Bool, true, false, Option, none, some, List, [], ◌∷◌, ◌==◌,
  ==_iff, Bool-cases, not, if◌then◌else◌,
}
use grin_wallet.Prelude.Result.{ok, payment_proof, ok_injective}
use grin_wallet.Prelude.Exec.{lift, raise, exec-eq-ok}
use grin_wallet.Bytes.{Bytes}
use grin_wallet.TxLog.{TxLogEntry, StoredProofInfo}
use grin_wallet.Context.{Context}
use grin_wallet.Libtx.{Libtx}
use grin_wallet.Slates.{Slate, PaymentInfo, calc_excess}
use grin_wallet.Backend.{Env, Wallet, Op, tx_log_iter}
use grin_wallet.Updater.Query.{listed_txs}
use grin_wallet.Exchange.{Host, payment_proof_message}
use grin_wallet.Exchange.Complete.{
  verify_slate_payment_proof, check_first, check_proof, check_signature, proof_index,
}

module _ (env : Env) (lib : Libtx) (host : Host lib) (parent_key_id : ℕ) (context : Context)
    (s : Slate lib) where
  -- The proof of a slate is signed by the recipient that the wallet has recorded, over the amount,
  -- the excess and the wallet's own address.
  pub record IsProven (orig : StoredProofInfo) (p : PaymentInfo lib) : Type 0 where
    pub index : ℕ
    pub key : Bytes
    pub address : lib.DalekPublicKey
    pub excess : lib.Commitment
    pub signature : lib.DalekSignature
    pub has_index : context.payment_proof_derivation_index ≡ some index
    pub has_key : host.address_from_derivation_path parent_key_id index ≡ ok key
    pub has_address : host.onion_address key ≡ ok address
    pub has_excess : calc_excess lib s ≡ ok excess
    pub has_signature : p.receiver_signature ≡ some signature
    pub from_wallet : p.sender_address ≡ address
    pub to_recorded : host.address_of orig.receiver_address ≡ p.receiver_address
    pub verified :
        host.verify p.receiver_address
          (payment_proof_message env lib host s.amount excess address)
          signature
        ≡ true

  -- What the entry and the slate say of a proof agrees.
  abbrev pub Agrees : Option StoredProofInfo → Option (PaymentInfo lib) → Type 0
  Agrees recorded info =
      ((recorded ≡ none) × (info ≡ none))
      ⊎ ((orig : StoredProofInfo) × (p : PaymentInfo lib) × (recorded ≡ some orig)
          × (info ≡ some p)
          × IsProven orig p)

  proof_index-some : (o : Option ℕ) (i : ℕ) → proof_index env lib host o ≡ ok i → o ≡ some i
  proof_index-some none i e = cc
  proof_index-some (some j) i e = ap some (ok_injective e)

  -- Both guards are passed.
  passed :
      (b c : Bool) (m : Op env (Unit {0})) (w : Wallet env)
      → ((if not b then raise payment_proof else if not c then raise payment_proof else m) w).0
        ≡ ok tt
      → (b ≡ true) × (c ≡ true) × ((m w).0 ≡ ok tt)
  passed false c m w e = cc
  passed true false m w e = cc
  passed true true m w e = (refl, refl, e)

  check_signature-ok :
      (msg : Bytes) (address : lib.DalekPublicKey) (o : Option lib.DalekSignature)
      → check_signature env lib host msg address o ≡ ok tt
      → (sig : lib.DalekSignature) × (o ≡ some sig) × (host.verify address msg sig ≡ true)
  check_signature-ok msg address none e = cc
  check_signature-ok msg address (some sig) e = elim (Bool-cases (host.verify address msg sig)) [
    | inl v ↦ (sig, refl, v)
    | inr v ↦ let no = rw v at e in cc
  ]

  check_proof-IsProven :
      (orig : StoredProofInfo) (p : PaymentInfo lib) (w : Wallet env)
      → (check_proof env lib host parent_key_id context s (some orig) (some p) w).0 ≡ ok tt
      → IsProven orig p
  check_proof-IsProven orig p w e =
      let (u, a1, a2, a3) = exec-eq-ok (lift env.unlocked) _ w e in
      let (index, b1, b2, b3) =
        exec-eq-ok (lift (proof_index env lib host context.payment_proof_derivation_index)) _ w
          a2 in
      let (key, c1, c2, c3) =
        exec-eq-ok (lift (host.address_from_derivation_path parent_key_id index)) _ w b2 in
      let (address, d1, d2, d3) = exec-eq-ok (lift (host.onion_address key)) _ w c2 in
      let (from, to, f) =
        passed (host.address_eq p.sender_address address)
          (host.address_eq (host.address_of orig.receiver_address) p.receiver_address) _ w d2 in
      let (excess, g1, g2, g3) = exec-eq-ok (lift (calc_excess lib s)) _ w f in
      let (signature, h1, h2) =
        check_signature-ok (payment_proof_message env lib host s.amount excess address)
          p.receiver_address p.receiver_signature g2 in
      record {
        index = index;
        key = key;
        address = address;
        excess = excess;
        signature = signature;
        has_index = proof_index-some context.payment_proof_derivation_index index b1;
        has_key = c1;
        has_address = d1;
        has_excess = g1;
        has_signature = h1;
        from_wallet = (host.address_eq_iff _ _).0 from;
        to_recorded = (host.address_eq_iff _ _).0 to;
        verified = h2;
      }

  check_proof-Agrees :
      (recorded : Option StoredProofInfo) (info : Option (PaymentInfo lib)) (w : Wallet env)
      → (check_proof env lib host parent_key_id context s recorded info w).0 ≡ ok tt
      → Agrees recorded info
  check_proof-Agrees none none w e = inl (refl, refl)
  check_proof-Agrees none (some p) w e = cc
  check_proof-Agrees (some orig) none w e = cc
  check_proof-Agrees (some orig) (some p) w e =
      inr (orig, p, refl, refl, check_proof-IsProven orig p w e)

  -- The log entries of the slate in the account.
  abbrev pub entries : Wallet env → List TxLogEntry
  entries w = listed_txs (tx_log_iter env w) none (some s.id) (some parent_key_id) false

  check_first-Agrees :
      (txs : List TxLogEntry) (w : Wallet env)
      → (check_first env lib host parent_key_id context s txs w).0 ≡ ok tt
      → (tx : TxLogEntry) × (rest : List TxLogEntry) × (txs ≡ tx ∷ rest)
        × Agrees tx.payment_proof s.payment_proof
  check_first-Agrees [] w e = cc
  check_first-Agrees (tx ∷ rest) w e =
      (tx, rest, refl, check_proof-Agrees tx.payment_proof s.payment_proof w e)

  -- The check of a payment proof is sound: where it succeeds, the account has an entry of the slate,
  -- and either neither the first such entry nor the slate has a proof, or both have one, for the same
  -- recipient, from the wallet's own address, and the signature of the recipient is one of the
  -- amount, the excess and that address.
  pub verify_slate_payment_proof-Agrees :
      (w : Wallet env)
      → (verify_slate_payment_proof env lib host parent_key_id context s w).0 ≡ ok tt
      → (tx : TxLogEntry) × (rest : List TxLogEntry) × (entries w ≡ tx ∷ rest)
        × Agrees tx.payment_proof s.payment_proof
  unfolding verify_slate_payment_proof
  verify_slate_payment_proof-Agrees w e = check_first-Agrees (entries w) w e
