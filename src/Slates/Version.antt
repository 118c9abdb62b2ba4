-- ===== src/Slates/Version.antt =====
-- Slates to and from version 4 (libwallet/src/slate.rs).
pub mod RoundTrip
pub mod Kernel
use grin_wallet.Prelude.{
  ℕ, false, Option, none, some, List, [], ◌∷◌, ◌++◌, map, ◌==◌, if◌then◌else◌,
}
use grin_wallet.Prelude.Result.{Result, ok, err, panic, ◌>>=◌}
use grin_wallet.Slate.{
  features_v4, features_of, ParticipantDataV4, PaymentInfoV4, CommitsV4, SlateV4,
}
use grin_wallet.Slate.Binary.{lock_height}
use grin_wallet.Libtx.{
  Libtx, KernelFeatures, plain, height_locked, TxKernel, Input, Output, Inputs, commit_only,
  features_and_commit,
}
use grin_wallet.Slates.{Slate, ParticipantData, PaymentInfo, blank, calc_excess}
use grin_wallet.Slates.Signing.{finalize_signature}

module _ (lib : Libtx) where
  abbrev pub participant_v4 : ParticipantData lib → ParticipantDataV4 lib.ext
  participant_v4 p = record {
    xs = p.public_blind_excess;
    nonce = p.public_nonce;
    part = p.part_sig;
  }

  abbrev pub participant_of : ParticipantDataV4 lib.ext → ParticipantData lib
  participant_of p = record {
    public_blind_excess = p.xs;
    public_nonce = p.nonce;
    part_sig = p.part;
  }

  abbrev pub payment_v4 : PaymentInfo lib → PaymentInfoV4 lib.ext
  payment_v4 p = record {
    saddr = p.sender_address;
    raddr = p.receiver_address;
    rsig = p.receiver_signature;
  }

  abbrev pub payment_of : PaymentInfoV4 lib.ext → PaymentInfo lib
  payment_of p = record {
    sender_address = p.saddr;
    receiver_address = p.raddr;
    receiver_signature = p.rsig;
  }

  -- `CommitsV4::from` an input and from an output (libwallet/src/slate_versions/v4.rs)
  abbrev pub input_v4 : Input lib.ext → CommitsV4 lib.ext
  input_v4 i = record { f = features_v4 i.features; c = i.commit; p = none }

  abbrev pub output_v4 : Output lib.ext → CommitsV4 lib.ext
  output_v4 o = record { f = features_v4 o.features; c = o.commit; p = some o.proof }

  abbrev pub input_commits : Inputs lib.ext → Result (List (CommitsV4 lib.ext))
  input_commits (commit_only cs) = panic
  input_commits (features_and_commit is) = ok (map input_v4 is)

  abbrev pub coms_of : Option lib.Transaction → Result (Option (List (CommitsV4 lib.ext)))
  coms_of none = ok none
  coms_of (some tx) = do
    is ← input_commits (lib.inputs tx)
    ok (some (is ++ map output_v4 (lib.outputs tx)))

  abbrev pub map_option : {A B : Type 0} → (A → B) → Option A → Option B
  map_option f none = none
  map_option f (some a) = some (f a)

  abbrev pub v4_with : Slate lib → Option (List (CommitsV4 lib.ext)) → SlateV4 lib.ext
  v4_with s coms = record {
    version = s.version;
    block_header_version = s.block_header_version;
    id = s.id;
    sta = s.state;
    off = s.offset;
    num_parts = s.num_participants;
    amt = s.amount;
    fee = s.fee_fields;
    feat = s.kernel_features;
    ttl = s.ttl_cutoff_height;
    sigs = map participant_v4 s.participant_data;
    coms = coms;
    proof = map_option payment_v4 s.payment_proof;
    feat_args = s.kernel_features_args;
  }

  unfoldable pub slate_v4 : Slate lib → Result (SlateV4 lib.ext)
  slate_v4 s = do coms ← coms_of s.tx; ok (v4_with s coms)

  -- The commitments that carry a proof are the outputs.
  abbrev with_output :
      CommitsV4 lib.ext → Option lib.RangeProof → List (Output lib.ext) → List (Output lib.ext)
  with_output c none os = os
  with_output c (some p) os = record { features = features_of c.f; commit = c.c; proof = p } ∷ os

  unfoldable pub outputs_of : List (CommitsV4 lib.ext) → List (Output lib.ext)
  outputs_of [] = []
  outputs_of (c ∷ cs) = with_output c c.p (outputs_of cs)

  abbrev with_input :
      CommitsV4 lib.ext → Option lib.RangeProof → List (Input lib.ext) → List (Input lib.ext)
  with_input c none is = record { features = features_of c.f; commit = c.c } ∷ is
  with_input c (some p) is = is

  unfoldable pub inputs_of : List (CommitsV4 lib.ext) → List (Input lib.ext)
  inputs_of [] = []
  inputs_of (c ∷ cs) = with_input c c.p (inputs_of cs)

  -- `match r { Ok(a) => a, Err(_) => d }`, of calls that return
  abbrev pub or_default : {A : Type 0} → A → Result A → A
  or_default d (ok a) = a
  or_default d _ = d

  -- The features of the kernel that is built for a slate of version 4.
  abbrev pub rebuilt_features : SlateV4 lib.ext → KernelFeatures lib.FeeFields
  rebuilt_features v =
      if v.feat == 0
      then plain v.fee
      else if v.feat == 1
      then height_locked v.fee (lock_height lib.ext v.feat_args)
      else plain v.fee

  abbrev pub calc_slate : SlateV4 lib.ext → Slate lib
  calc_slate v = record (blank lib 2 false) {
    fee_fields = v.fee;
    participant_data = map participant_of v.sigs;
  }

  unfoldable pub rebuilt_kernel : SlateV4 lib.ext → TxKernel lib.ext
  unfolding blank finalize_signature calc_excess
  rebuilt_kernel v = record {
    features = rebuilt_features v;
    excess = or_default lib.zero_commitment (calc_excess lib (calc_slate v));
    excess_sig = or_default lib.zero_signature (finalize_signature lib (calc_slate v));
  }

  abbrev pub with_commits :
      SlateV4 lib.ext → List (CommitsV4 lib.ext) → TxKernel lib.ext → lib.Transaction
  with_commits v cs kernel =
      lib.with_offset
        (lib.replace_outputs
          (lib.replace_inputs (lib.with_kernel lib.empty_transaction kernel) (inputs_of cs))
          (outputs_of cs))
        v.off

  abbrev tx_with_coms : SlateV4 lib.ext → Option (List (CommitsV4 lib.ext)) → Option lib.Transaction
  tx_with_coms v none = none
  tx_with_coms v (some cs) = some (with_commits v cs (rebuilt_kernel v))

  unfoldable pub tx_from_slate_v4 : SlateV4 lib.ext → Option lib.Transaction
  unfolding rebuilt_kernel inputs_of outputs_of
  tx_from_slate_v4 v = tx_with_coms v v.coms

  abbrev pub current_slate : SlateV4 lib.ext → Option lib.Transaction → Slate lib
  current_slate v tx = record {
    version = v.version;
    block_header_version = v.block_header_version;
    num_participants = v.num_parts;
    id = v.id;
    state = v.sta;
    tx = tx;
    amount = v.amt;
    fee_fields = v.fee;
    ttl_cutoff_height = v.ttl;
    kernel_features = v.feat;
    offset = v.off;
    participant_data = map participant_of v.sigs;
    payment_proof = map_option payment_of v.proof;
    kernel_features_args = v.feat_args;
  }

  unfoldable pub upgrade : SlateV4 lib.ext → Slate lib
  unfolding tx_from_slate_v4
  upgrade v = current_slate v (tx_from_slate_v4 v)
