-- ===== src/Exchange/Proof/Accepted.antt =====
-- The proof that a recipient makes is one that the sender accepts (`receive_tx` of
-- libwallet/src/api_impl/foreign.rs and `verify_slate_payment_proof` of
-- libwallet/src/internal/tx.rs).
use mathlib.Core.Path.{subst}
use grin_wallet.Prelude.{
  ℕ, ◌≡◌, refl, ◌∙◌, ap, Bool, true, not, ◌++◌, if◌then◌else◌, Option, some, List, ◌∷◌,
}
use grin_wallet.Prelude.Result.{Result, ok, payment_proof}
use grin_wallet.Prelude.Exec.{lift, raise, continue, ◌>>=◌}
use grin_wallet.Bytes.{Bytes, be_bytes}
use grin_wallet.TxLog.{TxLogEntry, StoredProofInfo}
use grin_wallet.Context.{Context}
use grin_wallet.Libtx.{Libtx}
use grin_wallet.Slates.{Slate, PaymentInfo, calc_excess}
use grin_wallet.Backend.{Env, Wallet, Op}
use grin_wallet.Exchange.{Host, payment_proof_message, create_payment_proof_signature}
use grin_wallet.Exchange.Complete.{
  verify_slate_payment_proof, check_first, check_proof, check_signature, proof_index,
}
use grin_wallet.Exchange.Proof.{entries}
use grin_wallet.Exchange.Receive.{prove}

-- Both parties write commitments and addresses the same way, and the signatures of ed25519_dalek
-- verify under the address of their key.
pub record Partners (lib : Libtx) (sender recipient : Host lib) : Type 0 where
  pub same_commitments :
      (c : lib.Commitment) → recipient.commitment_bytes c ≡ sender.commitment_bytes c
  pub same_addresses : (a : lib.DalekPublicKey) → recipient.address_bytes a ≡ sender.address_bytes a
  pub signs :
      (key message : Bytes) (a : lib.DalekPublicKey)
      → recipient.onion_address key ≡ ok a
      → sender.verify a message (recipient.sign key message) ≡ true

module _ (env env' : Env) (lib : Libtx) (sender recipient : Host lib)
    (partners : Partners lib sender recipient) where
  same_message :
      (amount : ℕ) (excess : lib.Commitment) (a : lib.DalekPublicKey)
      → payment_proof_message env' lib recipient amount excess a
        ≡ payment_proof_message env lib sender amount excess a
  unfolding payment_proof_message
  same_message amount excess a =
      λ i. be_bytes 8 amount ++ (partners.same_commitments excess i ++ partners.same_addresses a i)

  -- The signature of the recipient over what the sender expects.
  signed :
      (amount : ℕ) (excess : lib.Commitment) (p : PaymentInfo lib) (key : Bytes)
      → recipient.onion_address key ≡ ok p.receiver_address
      → sender.verify p.receiver_address
          (payment_proof_message env lib sender amount excess p.sender_address)
          (create_payment_proof_signature env' lib recipient amount excess p.sender_address key)
        ≡ true
  unfolding create_payment_proof_signature
  signed amount excess p key own =
      let m = payment_proof_message env' lib recipient amount excess p.sender_address in
      subst (λ n. sender.verify p.receiver_address n (recipient.sign key m) ≡ true)
        (same_message amount excess p.sender_address) (partners.signs key m p.receiver_address own)

  step :
      {A B : Type 0} (r : Result A) (a : A) (f : A → Op env B) (w : Wallet env)
      → r ≡ ok a
      → (lift r >>= f) w ≡ f a w
  step r a f w e = λ i. continue (e i) f w

  guards_passed :
      (b c : Bool) (m : Op env (Unit {0})) (w : Wallet env)
      → b ≡ true
      → c ≡ true
      → (if not b then raise payment_proof else if not c then raise payment_proof else m) w ≡ m w
  guards_passed b c m w e f = rw e (rw f refl)

  module _ (account parent_key_id index : ℕ) (context : Context) (s t : Slate lib)
      (excess : lib.Commitment) (p : PaymentInfo lib) (their_key key : Bytes) where
    accepted :
        (q : PaymentInfo lib) (sig : lib.DalekSignature)
        → env.unlocked ≡ ok tt
        → context.payment_proof_derivation_index ≡ some index
        → sender.address_from_derivation_path parent_key_id index ≡ ok key
        → sender.onion_address key ≡ ok q.sender_address
        → calc_excess lib t ≡ ok excess
        → t.amount ≡ s.amount
        → (orig : StoredProofInfo) (w : Wallet env)
        → orig.receiver_address ≡ sender.address_code q.receiver_address
        → q.receiver_signature ≡ some sig
        → sender.verify q.receiver_address
            (payment_proof_message env lib sender s.amount excess q.sender_address)
            sig
          ≡ true
        → check_proof env lib sender parent_key_id context t (some orig) (some q) w ≡ (ok tt, w)
    accepted q sig u i k a e m orig w o has valid =
        let message = payment_proof_message env lib sender t.amount excess q.sender_address in
        step env.unlocked tt _ w u
        ∙ step (proof_index env lib sender context.payment_proof_derivation_index) index _ w
            (ap (proof_index env lib sender) i)
        ∙ step (sender.address_from_derivation_path parent_key_id index) key _ w k
        ∙ step (sender.onion_address key) q.sender_address _ w a
        ∙ guards_passed (sender.address_eq q.sender_address q.sender_address)
            (sender.address_eq (sender.address_of orig.receiver_address) q.receiver_address) _ w
            ((sender.address_eq_iff _ _).1 refl)
            ((sender.address_eq_iff _ _).1
              (ap sender.address_of o ∙ sender.read_address q.receiver_address))
        ∙ step (calc_excess lib t) excess _ w e
        ∙ ap (λ z. (z, w))
            (ap (check_signature env lib sender message q.receiver_address) has
              ∙ rw m (rw valid refl))

    -- The sender accepts the proof that the recipient of the address makes over the slate `s`, where
    -- the completed slate `t` has this proof, its amount and its excess, the proof asks for the
    -- sender's own address, and the first entry of the slate has recorded the recipient.
    pub verify_slate_payment_proof-prove :
        recipient.address_from_derivation_path account 0 ≡ ok their_key
        → recipient.onion_address their_key ≡ ok p.receiver_address
        → env.unlocked ≡ ok tt
        → context.payment_proof_derivation_index ≡ some index
        → sender.address_from_derivation_path parent_key_id index ≡ ok key
        → sender.onion_address key ≡ ok p.sender_address
        → calc_excess lib t ≡ ok excess
        → t.amount ≡ s.amount
        → (tx : TxLogEntry) (rest : List TxLogEntry) (orig : StoredProofInfo) (v : Wallet env')
          (w : Wallet env)
        → entries env lib sender parent_key_id context t w ≡ tx ∷ rest
        → tx.payment_proof ≡ some orig
        → orig.receiver_address ≡ sender.address_code p.receiver_address
        → (q : Option (PaymentInfo lib)) × (prove env' lib recipient account s excess (some p) v
            ≡ (ok q, v))
          × (t.payment_proof ≡ q
              → verify_slate_payment_proof env lib sender parent_key_id context t w ≡ (ok tt, w))
    unfolding verify_slate_payment_proof
    verify_slate_payment_proof-prove k a u i k' a' e m tx rest orig v w es r o =
        let sig =
          create_payment_proof_signature env' lib recipient s.amount excess p.sender_address
            their_key in
        let q = record p { receiver_signature = some sig } in
        (
          some q,
          rw k refl,
          λ f.
              ap (λ txs. check_first env lib sender parent_key_id context t txs w) es
              ∙ (λ j. check_proof env lib sender parent_key_id context t (r j) (f j) w)
              ∙ accepted q sig u i k' a' e m orig w o refl (signed s.amount excess p their_key a),
        )
