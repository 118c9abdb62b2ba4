-- ===== src/Exchange/Complete.antt =====
-- The completion of a transaction (`repopulate_tx` of libwallet/src/internal/selection.rs;
-- `new_tx_slate`, `complete_tx`, `update_stored_tx` and `verify_slate_payment_proof` of
-- libwallet/src/internal/tx.rs).
use grin_wallet.Prelude.{
  ℕ, Bool, true, false, not, Option, none, some, List, [], ◌∷◌, ◌++◌, ◌==◌, ◌&&◌, if◌then◌else◌,
  find?, add64,
}
use grin_wallet.Prelude.Result.{
  Result, ok, err, fee_error, slate_transaction_required, transaction_doesnt_exist, payment_proof,
}
use grin_wallet.Prelude.Exec.{pure, lift, raise, gets, ◌>>=◌, ◌>>◌}
use grin_wallet.Bytes.{Bytes, bytes_eq}
use grin_wallet.Output.{OutputData}
use grin_wallet.TxLog.{TxLogEntry, StoredProofInfo, is_type, tx_sent, tx_received}
use grin_wallet.Context.{Context}
use grin_wallet.Libtx.{Libtx}
use grin_wallet.Slates.{
  Slate, PaymentInfo, blank, tx_or_err, add_participant_info, add_transaction_elements, calc_excess,
}
use grin_wallet.Slates.Signing.{fill_round_2, finalize}
use grin_wallet.Selection.Change.{Part, coinbase_input, input, output}
use grin_wallet.Backend.{
  Env, Wallet, Op, in_batch, iter, tx_log_iter, save_tx_log_entry, output_key,
}
use grin_wallet.Updater.Query.{listed_txs}
use grin_wallet.Exchange.{
  Host, unwrapped, map_option, payment_proof_message, create_payment_proof_signature,
}

module _ (env : Env) (lib : Libtx) (host : Host lib) where
  abbrev version_if : ℕ → ℕ → Slate lib → Slate lib
  version_if height v s =
      if host.valid_header_version height v then record s { block_header_version = v } else s

  abbrev with_ttl : ℕ → Option ℕ → Slate lib → Slate lib
  with_ttl height none s = s
  with_ttl height (some b) s = record s { ttl_cutoff_height = add64 height b }

  unfoldable pub new_tx_slate : ℕ → Bool → ℕ → Option ℕ → Op env (Slate lib)
  unfolding blank
  new_tx_slate amount is_invoice num_participants ttl_blocks = do
    current_height ← lift host.get_chain_tip
    let s : Slate lib = with_ttl current_height ttl_blocks (blank lib num_participants is_invoice)
    let s' : Slate lib =
        version_if current_height 3
          (version_if current_height 2 (version_if current_height 1 (record s { amount = amount })))
    pure (record s' { kernel_features = 0 })

  -- The output under its key, else the first with the identifier.
  abbrev pub found_input : Option OutputData → Option OutputData → Option OutputData
  found_input none o = o
  found_input (some o) p = some o

  abbrev input_part : ℕ → Option OutputData → List Part → List Part
  input_part value none parts = parts
  input_part value (some i) parts =
      (if i.is_coinbase then coinbase_input value i.key_id else input value i.key_id) ∷ parts

  abbrev output_part : ℕ → Option OutputData → List Part → List Part
  output_part value none parts = parts
  output_part value (some i) parts = output value i.key_id ∷ parts

  abbrev by_id : ℕ → Wallet env → Option OutputData
  by_id id w = find? (λ o. o.key_id == id) (iter env w)

  unfoldable pub input_parts : Wallet env → List (ℕ × Option ℕ × ℕ) → List Part
  input_parts w [] = []
  input_parts w ((id, mmr_index, value) ∷ ids) =
      input_part value (found_input (env.get w.outputs (output_key id mmr_index)) (by_id id w))
        (input_parts w ids)

  unfoldable pub output_parts : Wallet env → List (ℕ × Option ℕ × ℕ) → List Part
  output_parts w [] = []
  output_parts w ((id, i, value) ∷ ids) = output_part value (by_id id w) (output_parts w ids)

  abbrev pub restored_fee : Bool → Option ℕ → Slate lib → Result (Slate lib)
  restored_fee false f s = ok s
  restored_fee true none s = err fee_error
  restored_fee true (some f) s = ok (record s { fee_fields = host.fee_of f })

  abbrev with_own_offset : Slate lib → Option lib.Transaction → Result (Slate lib)
  with_own_offset s none = err slate_transaction_required
  with_own_offset s (some tx) = ok (record s { tx = some (lib.with_offset tx s.offset) })

  -- `slate.tx_or_err_mut()?.offset = slate.offset.clone()`
  unfoldable pub restore_offset : Slate lib → Result (Slate lib)
  restore_offset s = with_own_offset s s.tx

  unfoldable pub repopulate_tx : Slate lib → Context → Bool → Op env (Slate lib)
  unfolding input_parts output_parts restore_offset
  repopulate_tx s context update_fee = do
    priced ← lift (restored_fee update_fee context.fee (record s { amount = context.amount }))
    lift env.unlocked
    signed ← lift (add_participant_info lib priced context none)
    parts ← gets (λ w. input_parts w context.input_ids ++ output_parts w context.output_ids)
    built ← lift (add_transaction_elements lib signed parts)
    lift (restore_offset built.0)

  -- The keys of the initiator, where both of them differ.
  abbrev pub signing_keys : Context → Bytes × Bytes
  signing_keys context =
      if not (bytes_eq context.initial_sec_key context.sec_key)
        && not (bytes_eq context.initial_sec_nonce context.sec_nonce)
      then (context.initial_sec_key, context.initial_sec_nonce)
      else (context.sec_key, context.sec_nonce)

  unfoldable pub complete_tx : Slate lib → Context → Op env (Slate lib)
  complete_tx s context = do
    lift env.unlocked
    signed ← lift (fill_round_2 lib s (signing_keys context).0 (signing_keys context).1)
    lift env.unlocked
    lift (finalize lib env.core signed)

  abbrev index_or_zero : Option ℕ → ℕ
  index_or_zero none = 0
  index_or_zero (some i) = i

  -- The proof that is stored with the transaction, with the signature of the sender.
  abbrev pub final_proof :
      Option ℕ
      → Slate lib
      → Option (PaymentInfo lib)
      → Option StoredProofInfo
      → Op env (Option StoredProofInfo)
  final_proof index s none stored = pure stored
  final_proof index s (some p) stored = do
    lift env.unlocked
    parent_key_id ← gets (λ w. w.parent_key_id)
    excess ← lift (calc_excess lib s)
    sender_key ← lift (host.address_from_derivation_path parent_key_id (index_or_zero index))
    sender_address ← lift (host.onion_address sender_key)
    let sig =
        create_payment_proof_signature env lib host s.amount excess p.sender_address sender_key
    pure (
        some (record {
          receiver_address = host.address_code p.receiver_address;
          receiver_signature = map_option host.signature_code p.receiver_signature;
          sender_address_path = index_or_zero index;
          sender_address = host.address_code sender_address;
          sender_signature = some (host.signature_code sig);
        }))

  -- The first entry of the slate that was sent, or received for an invoice.
  abbrev pub own_entry : ℕ → Bool → Wallet env → Option TxLogEntry
  own_entry slate_id is_invoiced w =
      find? (λ t. if is_invoiced then is_type t.tx_type tx_received else is_type t.tx_type tx_sent)
        (listed_txs (tx_log_iter env w) none (some slate_id) none false)

  abbrev pub store_final : Context → Slate lib → Option TxLogEntry → Op env (Unit {0})
  store_final context s none = raise transaction_doesnt_exist
  store_final context s (some tx) = do
    lift env.unlocked
    excess ← lift (calc_excess lib s)
    proof ← final_proof context.payment_proof_derivation_index s s.payment_proof tx.payment_proof
    id ← lift (unwrapped tx.tx_slate_id)
    final_tx ← lift (tx_or_err lib s)
    lift (host.store_tx id final_tx)
    in_batch env (
        save_tx_log_entry env
          (record tx { kernel_excess = some (host.commitment_code excess); payment_proof = proof })
          tx.parent_key_id)

  unfoldable pub update_stored_tx : Context → Slate lib → Bool → Op env (Unit {0})
  unfolding listed_txs
  update_stored_tx context s is_invoiced = do
    tx ← gets (own_entry s.id is_invoiced)
    store_final context s tx

  abbrev pub proof_index : Option ℕ → Result ℕ
  proof_index none = err payment_proof
  proof_index (some i) = ok i

  -- The signature of the recipient is there and is one of the message.
  abbrev pub check_signature :
      Bytes → lib.DalekPublicKey → Option lib.DalekSignature → Result (Unit {0})
  check_signature msg address none = err payment_proof
  check_signature msg address (some sig) =
      if host.verify address msg sig then ok tt else err payment_proof

  abbrev pub check_proof :
      ℕ
      → Context
      → Slate lib
      → Option StoredProofInfo
      → Option (PaymentInfo lib)
      → Op env (Unit {0})
  check_proof parent_key_id context s none none = pure tt
  check_proof parent_key_id context s (some orig) none = raise payment_proof
  check_proof parent_key_id context s none (some p) = raise payment_proof
  check_proof parent_key_id context s (some orig) (some p) = do
    lift env.unlocked
    index ← lift (proof_index context.payment_proof_derivation_index)
    sender_key ← lift (host.address_from_derivation_path parent_key_id index)
    sender_address ← lift (host.onion_address sender_key)
    if not (host.address_eq p.sender_address sender_address)
        then raise payment_proof
        else if not (host.address_eq (host.address_of orig.receiver_address) p.receiver_address)
        then raise payment_proof
        else (do
          excess ← lift (calc_excess lib s)
          lift (
              check_signature (payment_proof_message env lib host s.amount excess sender_address)
                p.receiver_address p.receiver_signature))

  -- The entry that is checked is the first of the slate in the account.
  abbrev pub check_first : ℕ → Context → Slate lib → List TxLogEntry → Op env (Unit {0})
  check_first parent_key_id context s [] = raise payment_proof
  check_first parent_key_id context s (tx ∷ txs) =
      check_proof parent_key_id context s tx.payment_proof s.payment_proof

  unfoldable pub verify_slate_payment_proof : ℕ → Context → Slate lib → Op env (Unit {0})
  unfolding listed_txs
  verify_slate_payment_proof parent_key_id context s = do
    tx_vec ← gets (λ w. listed_txs (tx_log_iter env w) none (some s.id) (some parent_key_id) false)
    check_first parent_key_id context s tx_vec
