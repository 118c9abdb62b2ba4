-- ===== src/Examples/Exchanges.antt =====
-- The theorems on slates at a concrete one.
use grin_wallet.Prelude.{◌≡◌, refl, true, false, Option, none, some, [], ◌∷◌}
use grin_wallet.Prelude.Result.{ok}
use grin_wallet.Bytes.{be_bytes}
use grin_wallet.TxLog.{standard1}
use grin_wallet.Slate.{plain, SlateV4}
use grin_wallet.Libtx.{height_locked, plain as plain_kernel}
use grin_wallet.Slates.{
  Slate, ParticipantData, kernel_features, calc_excess, fill_round_1, remove_other_sigdata,
}
use grin_wallet.Slates.Signing.{finalize_signature}
use grin_wallet.Slates.Participants.{IsFirstSig, entry, filled, fill_round_1_once}
use grin_wallet.Slates.Version.{slate_v4, upgrade, rebuilt_kernel, v4_with}
use grin_wallet.Slates.Version.RoundTrip.{upgrade-slate_v4}
use grin_wallet.Slates.Version.Kernel.{rebuilt_kernel_plain, lock_height_lost}
use grin_wallet.Examples.Toy.{ToyTx, toy, toy_parts, toy_keys, no_tx}
use grin_wallet.Examples.Backends.{context}

abbrev pub funded : ToyTx
funded = record no_tx {
  ins = record { features = plain; commit = true } ∷ [];
  outs = record { features = plain; commit = false; proof = true } ∷ [];
}

abbrev pub signed : ParticipantData toy
signed = record { public_blind_excess = true; public_nonce = false; part_sig = some true }

abbrev pub sent : Slate toy
sent = record {
  version = 4;
  block_header_version = 3;
  num_participants = 2;
  id = 5;
  state = standard1;
  tx = some funded;
  amount = 20;
  fee_fields = true;
  ttl_cutoff_height = 0;
  kernel_features = 0;
  offset = true;
  participant_data = signed ∷ [];
  payment_proof = none;
  kernel_features_args = none;
}

upgrade-slate_v4_example :
    (v : SlateV4 toy.ext) × (tx' : ToyTx) × (slate_v4 toy sent ≡ ok v)
    × (upgrade toy v ≡ record sent { tx = some tx' })
    × (toy.inputs tx' ≡ toy.inputs funded)
    × (toy.outputs tx' ≡ toy.outputs funded)
    × (toy.kernels tx' ≡ rebuilt_kernel toy v ∷ [])
upgrade-slate_v4_example = upgrade-slate_v4 toy toy_parts sent funded funded.ins refl refl

excess : calc_excess toy sent ≡ ok true
unfolding calc_excess
excess = refl

signature : finalize_signature toy sent ≡ ok true
unfolding finalize_signature
signature = refl

rebuilt_kernel_plain_example :
    (kernel_features toy sent ≡ ok (rebuilt_kernel toy (v4_with toy sent none)).features)
    × ((rebuilt_kernel toy (v4_with toy sent none)).excess ≡ true)
    × ((rebuilt_kernel toy (v4_with toy sent none)).excess_sig ≡ true)
rebuilt_kernel_plain_example = rebuilt_kernel_plain toy sent none true true refl excess signature

abbrev locked_slate : Slate toy
locked_slate = record sent { kernel_features = 2; kernel_features_args = some 700 }

lock_height_lost_example :
    (kernel_features toy locked_slate ≡ ok (height_locked true 700))
    × ((rebuilt_kernel toy (v4_with toy locked_slate none)).features ≡ plain_kernel true)
lock_height_lost_example = lock_height_lost toy locked_slate none 700 refl refl

own_key : toy.from_secret_key context.sec_key ≡ ok false
unfolding be_bytes
own_key = refl

own_nonce : toy.from_secret_key context.sec_nonce ≡ ok false
unfolding be_bytes
own_nonce = refl

fill_round_1_once_example :
    (sig : Option toy.Signature) × IsFirstSig toy toy_keys false false (signed ∷ []) sig
    × (fill_round_1 toy sent context ≡ ok (filled toy toy_keys false false sent sig))
    × (fill_round_1 toy (filled toy toy_keys false false sent sig) context
        ≡ ok (filled toy toy_keys false false sent sig))
    × (remove_other_sigdata toy
          (filled toy toy_keys false false sent sig)
          context.sec_nonce
          context.sec_key
        ≡ ok (record sent { participant_data = entry toy toy_keys false false sig ∷ [] }))
fill_round_1_once_example =
    fill_round_1_once toy toy_keys false false sent context own_key own_nonce
