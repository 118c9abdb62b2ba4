-- ===== src/Slates.antt =====
-- The slate that the parties of a transaction pass around (libwallet/src/slate.rs): its data, its
-- kernel, its participants and their offset. An operation that changes the slate returns the new one.
pub mod Identity
pub mod Participants
pub mod Signing
pub mod Version
use grin_wallet.Prelude.{
  ℕ, Bool, true, false, not, ◌&&◌, ◌||◌, Option, none, some, List, [], ◌∷◌, ◌++◌, map, filter, ◌==◌,
  if◌then◌else◌,
}
use grin_wallet.Prelude.Result.{
  Result, ok, err, ◌>>=◌, slate_transaction_required, invalid_kernel_features,
  kernel_features_missing, unknown_kernel_features, commit_error,
}
use grin_wallet.Bytes.{Bytes}
use grin_wallet.TxLog.{SlateState, standard1, invoice1}
use grin_wallet.Context.{Context}
use grin_wallet.Slate.Binary.{is_some}
use grin_wallet.Selection.Change.{Part}
use grin_wallet.Libtx.{Libtx, KernelFeatures, plain, height_locked, no_recent_duplicate}

module _ (lib : Libtx) where
  pub record PaymentInfo : Type 0 where
    pub sender_address : lib.DalekPublicKey
    pub receiver_address : lib.DalekPublicKey
    pub receiver_signature : Option lib.DalekSignature

  pub record ParticipantData : Type 0 where
    pub public_blind_excess : lib.PublicKey
    pub public_nonce : lib.PublicKey
    pub part_sig : Option lib.Signature

  -- `kernel_features_args` is the lock height of `KernelFeaturesArgs`.
  pub record Slate : Type 0 where
    pub version : ℕ
    pub block_header_version : ℕ
    pub num_participants : ℕ
    pub id : ℕ
    pub state : SlateState
    pub tx : Option lib.Transaction
    pub amount : ℕ
    pub fee_fields : lib.FeeFields
    pub ttl_cutoff_height : ℕ
    pub kernel_features : ℕ
    pub offset : lib.BlindingFactor
    pub participant_data : List ParticipantData
    pub payment_proof : Option PaymentInfo
    pub kernel_features_args : Option ℕ

  abbrev pub is_complete : ParticipantData → Bool
  is_complete p = is_some p.part_sig

  abbrev pub tx_of : Option lib.Transaction → Result lib.Transaction
  tx_of none = err slate_transaction_required
  tx_of (some t) = ok t

  abbrev pub tx_or_err : Slate → Result lib.Transaction
  tx_or_err s = tx_of s.tx

  -- 0 stands for 2.
  abbrev pub participants : ℕ → ℕ
  participants n = if n == 0 then 2 else n

  abbrev pub compact : Slate → Slate
  compact s = record s { tx = none }

  unfoldable pub blank : ℕ → Bool → Slate
  blank num_participants is_invoice = record {
    version = 4;
    block_header_version = 3;
    num_participants = participants num_participants;
    id = lib.new_v4;
    state = if is_invoice then invoice1 else standard1;
    tx = some lib.empty_transaction;
    amount = 0;
    fee_fields = lib.zero_fee;
    ttl_cutoff_height = 0;
    kernel_features = 0;
    offset = lib.zero_blind;
    participant_data = [];
    payment_proof = none;
    kernel_features_args = none;
  }

  abbrev with_height :
      Option ℕ → (ℕ → Result (KernelFeatures lib.FeeFields)) → Result (KernelFeatures lib.FeeFields)
  with_height none f = err kernel_features_missing
  with_height (some h) f = f h

  unfoldable pub kernel_features : Slate → Result (KernelFeatures lib.FeeFields)
  kernel_features s =
      if s.kernel_features == 0
      then ok (plain s.fee_fields)
      else if s.kernel_features == 1
      then err (invalid_kernel_features 1)
      else if s.kernel_features == 2
      then with_height s.kernel_features_args (λ h. ok (height_locked s.fee_fields h))
      else if s.kernel_features == 3
      then with_height s.kernel_features_args
          (λ h. do r ← lib.relative_height h; ok (no_recent_duplicate s.fee_fields r))
      else err (unknown_kernel_features s.kernel_features)

  unfoldable pub msg_to_sign : Slate → Result lib.Message
  unfolding kernel_features
  msg_to_sign s = do features ← kernel_features s; lib.kernel_sig_msg features

  unfoldable pub update_kernel : Slate → Result Slate
  unfolding kernel_features
  update_kernel s = do
    tx ← tx_or_err s
    features ← kernel_features s
    ok (record s { tx = some (lib.replace_kernel tx (lib.with_features features)) })

  abbrev build_elements : Slate → List Part → Result (Slate × lib.BlindingFactor)
  build_elements s [] = ok (s, lib.zero_blind)
  build_elements s (e ∷ elems) = do
    tx ← tx_or_err s
    built ← lib.partial_transaction tx (e ∷ elems)
    ok (record s { tx = some built.0 }, built.1)

  unfoldable pub add_transaction_elements : Slate → List Part → Result (Slate × lib.BlindingFactor)
  unfolding update_kernel
  add_transaction_elements s elems = do s' ← update_kernel s; build_elements s' elems

  -- An entry under a key and a nonce.
  abbrev pub is_entry : lib.PublicKey → lib.PublicKey → ParticipantData → Bool
  is_entry pub_key pub_nonce v =
      lib.key_eq v.public_nonce pub_nonce && lib.key_eq v.public_blind_excess pub_key

  unfoldable pub remove_other_sigdata : Slate → Bytes → Bytes → Result Slate
  remove_other_sigdata s sec_nonce sec_key = do
    pub_nonce ← lib.from_secret_key sec_nonce
    pub_key ← lib.from_secret_key sec_key
    ok (record s { participant_data = filter (is_entry pub_key pub_nonce) s.participant_data })

  -- The signature that the closure of `filter` keeps: the one that is given, else the first that an
  -- entry of the same keys has.
  unfoldable pub kept_sig :
      lib.PublicKey
      → lib.PublicKey
      → Option lib.Signature
      → List ParticipantData
      → Option lib.Signature
  kept_sig pub_key pub_nonce part_sig [] = part_sig
  kept_sig pub_key pub_nonce part_sig (v ∷ vs) =
      kept_sig pub_key pub_nonce
        (if is_entry pub_key pub_nonce v && not (is_some part_sig) then v.part_sig else part_sig) vs

  unfoldable pub add_participant_info : Slate → Context → Option lib.Signature → Result Slate
  unfolding kept_sig
  add_participant_info s context part_sig = do
    pub_key ← lib.from_secret_key context.sec_key
    pub_nonce ← lib.from_secret_key context.sec_nonce
    ok (record s {
      participant_data =
          filter
            (λ v.
              not (lib.key_eq v.public_nonce pub_nonce)
              || not (lib.key_eq v.public_blind_excess pub_key))
            s.participant_data
          ++ (record {
            public_blind_excess = pub_key;
            public_nonce = pub_nonce;
            part_sig = kept_sig pub_key pub_nonce part_sig s.participant_data;
          }
              ∷ []);
    })

  abbrev pub fill_round_1 : Slate → Context → Result Slate
  fill_round_1 s context = add_participant_info s context none

  -- `from_combination`, of at least one key
  abbrev pub combine : List lib.PublicKey → Result lib.PublicKey
  combine [] = err commit_error
  combine (k ∷ ks) = lib.from_combination (k ∷ ks)

  abbrev pub pub_nonce_sum : Slate → Result lib.PublicKey
  pub_nonce_sum s = combine (map (λ p. p.public_nonce) s.participant_data)

  abbrev pub pub_blind_sum : Slate → Result lib.PublicKey
  pub_blind_sum s = combine (map (λ p. p.public_blind_excess) s.participant_data)

  unfoldable pub calc_excess : Slate → Result lib.Commitment
  calc_excess s = do sum ← pub_blind_sum s; lib.from_pubkey sum

  -- The blinding factors of the inputs or outputs of a context.
  unfoldable pub derive_keys : List (ℕ × Option ℕ × ℕ) → Result (List lib.BlindingFactor)
  derive_keys [] = ok []
  derive_keys ((id, mmr_index, amount) ∷ ids) = do
    k ← lib.derive_key amount id
    ks ← derive_keys ids
    ok (lib.blind_of k ∷ ks)

  unfoldable pub adjust_offset : Slate → Context → Result Slate
  unfolding derive_keys
  adjust_offset s context = do
    subtracted ← derive_keys context.input_ids
    added ← derive_keys context.output_ids
    offset ← lib.blind_sum (s.offset ∷ added) (lib.blind_of context.initial_sec_key ∷ subtracted)
    ok (record s { offset = offset })
