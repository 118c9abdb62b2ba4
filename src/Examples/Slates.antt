-- ===== src/Examples/Slates.antt =====
-- The round trip of a slate at a concrete one. The types of the other crates are Booleans in a byte.
use mathlib.Core.Path.{subst}
use grin_wallet.Prelude.{
  ◌≡◌, refl, Bool, true, false, none, some, List, [], ◌∷◌, ◌++◌, ◌==◌, length, All, ◌<◌, ◌^◌,
  some_injective, arith,
}
use grin_wallet.Prelude.Result.{ok}
use grin_wallet.Prelude.Exec.{pure, ◌>>=◌}
use grin_wallet.Bytes.{be_bytes}
use grin_wallet.TxLog.{standard2}
use grin_wallet.Wire.{Wire, IsRead, IsRead-last, read_uint, read_uint-be_bytes}
use grin_wallet.Slate.{
  OutputFeatures, plain, coinbase, features_v4, features_of, Formats, SlateV4, CommitsV4,
}
use grin_wallet.Slate.Binary.{bit, write_slate, read_slate}
use grin_wallet.Slate.Binary.Whole.{SlateFits, normal_slate, read_slate-write_slate}

bit-lt : (b : Bool) → bit b < 256
bit-lt b = ground arith

bit_back : (b : Bool) → (bit b == 1) ≡ b
bit_back b = ground arith

pub bool_back : (b : Bool) → IsRead (read_uint 1 >>= λ v. pure (v == 1)) (be_bytes 1 (bit b)) b
bool_back b =
    subst (λ c. IsRead (read_uint 1 >>= λ v. pure (v == 1)) (be_bytes 1 (bit b)) c) (bit_back b)
      (IsRead-last (λ v. v == 1) (read_uint-be_bytes 1 (bit b) (bit-lt b)))

abbrev bool : Wire Bool
bool = record {
  write = λ b. be_bytes 1 (bit b);
  read = read_uint 1 >>= λ v. pure (v == 1);
  read-write = bool_back;
}

features_back : (f : OutputFeatures) → features_of (features_v4 f) ≡ f
features_back plain = refl
features_back coinbase = refl

features_lt : (f : OutputFeatures) → features_v4 f < 256
features_lt plain = omega arith
features_lt coinbase = omega arith

pub features-IsRead :
    (f : OutputFeatures)
    → IsRead (read_uint 1 >>= λ v. pure (features_of v)) (be_bytes 1 (features_v4 f)) f
features-IsRead f =
    subst (λ c. IsRead (read_uint 1 >>= λ v. pure (features_of v)) (be_bytes 1 (features_v4 f)) c)
      (features_back f)
      (IsRead-last features_of (read_uint-be_bytes 1 (features_v4 f) (features_lt f)))

abbrev features : Wire OutputFeatures
features = record {
  write = λ f. be_bytes 1 (features_v4 f);
  read = read_uint 1 >>= λ v. pure (features_of v);
  read-write = features-IsRead;
}

abbrev pub formats : Formats
formats = record {
  PublicKey = Bool;
  Signature = Bool;
  BlindingFactor = Bool;
  Commitment = Bool;
  RangeProof = Bool;
  DalekPublicKey = Bool;
  DalekSignature = Bool;
  FeeFields = Bool;
  public_key = bool;
  signature = bool;
  blinding_factor = bool;
  commitment = bool;
  range_proof = bool;
  output_features = features;
  dalek_public_key = bool;
  dalek_signature = bool;
  fee_fields = bool;
  fee = bit;
  zero_fee = false;
}

abbrev coms : List (CommitsV4 formats)
coms = record { f = 0; c = true; p = some true } ∷ record { f = 1; c = true; p = none } ∷ []

abbrev slate : SlateV4 formats
slate = record {
  version = 4;
  block_header_version = 3;
  id = 2 ^ 100;
  sta = standard2;
  off = true;
  num_parts = 2;
  amt = 7000000000;
  fee = true;
  feat = 2;
  ttl = 0;
  sigs = record { xs = true; nonce = false; part = some true } ∷ [];
  coms = some coms;
  proof = some (record { saddr = true; raddr = false; rsig = none });
  feat_args = some 100;
}

few_coms :
    (cs : List (CommitsV4 formats))
    → some coms ≡ some cs
    → (length cs < 2 ^ 16) × All (λ o. o.f < 2) cs
few_coms cs e =
    subst (λ l. (length l < 2 ^ 16) × All (λ o. o.f < 2) l) (some_injective e) (omega arith)

slate_fits : SlateFits formats slate
slate_fits = record {
  version = omega arith;
  block_header_version = omega arith;
  id = omega arith;
  num_parts = omega arith;
  amt = omega arith;
  feat = omega arith;
  ttl = omega arith;
  sigs = omega arith;
  coms = few_coms;
  lock = omega arith;
}

read_slate-write_slate_example :
    read_slate formats (write_slate formats slate ++ (1 ∷ 2 ∷ []))
    ≡ (ok (normal_slate formats slate), 1 ∷ 2 ∷ [])
read_slate-write_slate_example = read_slate-write_slate formats slate (1 ∷ 2 ∷ []) slate_fits
