-- ===== src/Libtx.antt =====
-- What the wallet takes from the crates grin_core, secp256k1 and grin_keychain to build transactions
-- (as libwallet/src/slate.rs calls them): their types, the curve and the signatures as functions, and
-- a transaction as a type with its parts.
use grin_wallet.Prelude.{ℕ, ◌≡◌, Bool, true, ◌↔◌, List, [], ◌∷◌}
use grin_wallet.Prelude.Result.{Result}
use grin_wallet.Bytes.{Bytes}
use grin_wallet.Slate.{Formats, OutputFeatures}
use grin_wallet.Selection.Change.{Part}

-- `KernelFeatures`, but for the coinbase; the lock height of a kernel without recent duplicates is
-- the relative height.
pub data KernelFeatures (FeeFields : Type 0) : Type 0 where
  plain : FeeFields → KernelFeatures FeeFields
  height_locked no_recent_duplicate : FeeFields → ℕ → KernelFeatures FeeFields

module _ (ext : Formats) where
  pub record TxKernel : Type 0 where
    pub features : KernelFeatures ext.FeeFields
    pub excess : ext.Commitment
    pub excess_sig : ext.Signature

  pub record Input : Type 0 where
    pub features : OutputFeatures
    pub commit : ext.Commitment

  pub record Output : Type 0 where
    pub features : OutputFeatures
    pub commit : ext.Commitment
    pub proof : ext.RangeProof

  -- `Inputs`
  pub data Inputs : Type 0 where
    commit_only : List ext.Commitment → Inputs
    features_and_commit : List Input → Inputs

pub record Libtx : Type 1 where
  pub ext : Formats
  pub open ext use *
  pub Transaction : Type 0
  pub Message : Type 0
  -- equality of public keys
  pub key_eq : PublicKey → PublicKey → Bool
  -- `PublicKey::from_secret_key` and `PublicKey::from_combination`
  pub from_secret_key : Bytes → Result PublicKey
  pub from_combination : List PublicKey → Result PublicKey
  -- `Commitment::from_pubkey`, and the commitment and signature of zeros
  pub from_pubkey : PublicKey → Result Commitment
  pub zero_commitment : Commitment
  pub zero_signature : Signature
  -- `kernel_sig_msg`, `NRDRelativeHeight::new`
  pub kernel_sig_msg : KernelFeatures FeeFields → Result Message
  pub relative_height : ℕ → Result ℕ
  -- `aggsig`: of the secret key and nonce, the sums of nonces and of keys, and the message; of the
  -- signature, the sum of nonces, the key, the sum of keys and the message
  pub calculate_partial_sig : Bytes → Bytes → PublicKey → PublicKey → Message → Result Signature
  pub verify_partial_sig :
      Signature → PublicKey → PublicKey → PublicKey → Message → Result (Unit {0})
  pub add_signatures : List Signature → PublicKey → Result Signature
  pub verify_completed_sig : Signature → PublicKey → PublicKey → Message → Result (Unit {0})
  -- blinding factors: `zero`, `from_secret_key`, the keychain's `derive_key` and `blind_sum` of those
  -- that are added and of those that are subtracted
  pub zero_blind : BlindingFactor
  pub blind_of : Bytes → BlindingFactor
  pub derive_key : ℕ → ℕ → Result Bytes
  pub blind_sum : List BlindingFactor → List BlindingFactor → Result BlindingFactor
  -- `Slate::empty_transaction` by `Transaction::empty`, the parts of a transaction and their changes
  pub empty_transaction : Transaction
  pub inputs : Transaction → Inputs ext
  pub outputs : Transaction → List (Output ext)
  pub kernels : Transaction → List (TxKernel ext)
  pub tx_fee : Transaction → ℕ
  pub replace_inputs : Transaction → List (Input ext) → Transaction
  pub replace_outputs : Transaction → List (Output ext) → Transaction
  pub replace_kernel : Transaction → TxKernel ext → Transaction
  pub with_kernel : Transaction → TxKernel ext → Transaction
  pub with_offset : Transaction → BlindingFactor → Transaction
  -- `TxKernel::with_features`, `build::partial_transaction`, `verify` and `validate`
  pub with_features : KernelFeatures FeeFields → TxKernel ext
  pub partial_transaction : Transaction → List Part → Result (Transaction × BlindingFactor)
  pub verify_kernel : TxKernel ext → Result (Unit {0})
  pub validate : Transaction → Result (Unit {0})
  -- `Uuid::new_v4`
  pub new_v4 : ℕ

-- The changes of a transaction's parts do what their names say.
pub record Parts (lib : Libtx) : Type 0 where
  pub inputs-replace_inputs :
      (t : lib.Transaction) (is : List (Input lib.ext))
      → lib.inputs (lib.replace_inputs t is) ≡ features_and_commit is
  pub inputs-replace_outputs :
      (t : lib.Transaction) (os : List (Output lib.ext))
      → lib.inputs (lib.replace_outputs t os) ≡ lib.inputs t
  pub inputs-with_offset :
      (t : lib.Transaction) (b : lib.BlindingFactor)
      → lib.inputs (lib.with_offset t b) ≡ lib.inputs t
  pub outputs-replace_outputs :
      (t : lib.Transaction) (os : List (Output lib.ext))
      → lib.outputs (lib.replace_outputs t os) ≡ os
  pub outputs-with_offset :
      (t : lib.Transaction) (b : lib.BlindingFactor)
      → lib.outputs (lib.with_offset t b) ≡ lib.outputs t
  pub kernels-with_kernel :
      (k : TxKernel lib.ext) → lib.kernels (lib.with_kernel lib.empty_transaction k) ≡ k ∷ []
  pub kernels-replace_kernel :
      (t : lib.Transaction) (k : TxKernel lib.ext) → lib.kernels (lib.replace_kernel t k) ≡ k ∷ []
  pub kernels-replace_inputs :
      (t : lib.Transaction) (is : List (Input lib.ext))
      → lib.kernels (lib.replace_inputs t is) ≡ lib.kernels t
  pub kernels-replace_outputs :
      (t : lib.Transaction) (os : List (Output lib.ext))
      → lib.kernels (lib.replace_outputs t os) ≡ lib.kernels t
  pub kernels-with_offset :
      (t : lib.Transaction) (b : lib.BlindingFactor)
      → lib.kernels (lib.with_offset t b) ≡ lib.kernels t

-- Keys are compared by their values.
pub record KeyEq (lib : Libtx) : Type 0 where
  pub key_eq_iff : (a b : lib.PublicKey) → (lib.key_eq a b ≡ true) ↔ (a ≡ b)
