-- ===== src/Slate.antt =====
-- The slate of version 4 (libwallet/src/slate_versions/v4.rs). The types of the crates grin_core,
-- secp256k1 and ed25519_dalek are parameters, each with its own reader and writer; the features of
-- an output, plain and coinbase, are written out.
pub mod Binary
use grin_wallet.Prelude.{ℕ, Option, List, ◌==◌, if◌then◌else◌}
use grin_wallet.Wire.{Wire}
use grin_wallet.TxLog.{SlateState}

-- `OutputFeatures` of grin_core
pub data OutputFeatures : Type 0 where
  plain coinbase : OutputFeatures

-- `OutputFeaturesV4::from` and `OutputFeatures::from` (libwallet/src/slate.rs)
abbrev pub features_v4 : OutputFeatures → ℕ
features_v4 plain = 0
features_v4 coinbase = 1

abbrev pub features_of : ℕ → OutputFeatures
features_of f = if f == 1 then coinbase else plain

pub record Formats : Type 1 where
  pub PublicKey : Type 0
  pub Signature : Type 0
  pub BlindingFactor : Type 0
  pub Commitment : Type 0
  pub RangeProof : Type 0
  -- ed25519_dalek, 32 and 64 bytes
  pub DalekPublicKey : Type 0
  pub DalekSignature : Type 0
  pub FeeFields : Type 0
  pub public_key : Wire PublicKey
  pub signature : Wire Signature
  pub blinding_factor : Wire BlindingFactor
  pub commitment : Wire Commitment
  pub range_proof : Wire RangeProof
  pub output_features : Wire OutputFeatures
  pub dalek_public_key : Wire DalekPublicKey
  pub dalek_signature : Wire DalekSignature
  pub fee_fields : Wire FeeFields
  -- `FeeFields::fee` and `FeeFields::zero`
  pub fee : FeeFields → ℕ
  pub zero_fee : FeeFields

module _ (ext : Formats) where
  pub record ParticipantDataV4 : Type 0 where
    pub xs : ext.PublicKey
    pub nonce : ext.PublicKey
    pub part : Option ext.Signature

  pub record PaymentInfoV4 : Type 0 where
    pub saddr : ext.DalekPublicKey
    pub raddr : ext.DalekPublicKey
    pub rsig : Option ext.DalekSignature

  pub record CommitsV4 : Type 0 where
    pub f : ℕ
    pub c : ext.Commitment
    pub p : Option ext.RangeProof

  -- `ver` is two numbers; `feat_args` is the lock height of `KernelFeaturesArgsV4`; an identifier is
  -- the number of its 16 bytes.
  pub record SlateV4 : Type 0 where
    pub version : ℕ
    pub block_header_version : ℕ
    pub id : ℕ
    pub sta : SlateState
    pub off : ext.BlindingFactor
    pub num_parts : ℕ
    pub amt : ℕ
    pub fee : ext.FeeFields
    pub feat : ℕ
    pub ttl : ℕ
    pub sigs : List ParticipantDataV4
    pub coms : Option (List CommitsV4)
    pub proof : Option PaymentInfoV4
    pub feat_args : Option ℕ
