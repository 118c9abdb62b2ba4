-- ===== src/Slates/Version/Kernel.antt =====
-- The kernel that is built for a slate of version 4 (libwallet/src/slate.rs).
use grin_wallet.Prelude.{
  ℕ, ◌≡◌, refl, sym, ◌∙◌, ap, true, false, Option, none, some, List, [], ◌∷◌, map, ◌==◌, arith,
}
use grin_wallet.Prelude.Result.{ok, ◌>>=◌, ◌>>◌}
use grin_wallet.Slate.{CommitsV4}
use grin_wallet.Libtx.{Libtx, height_locked, plain as plain_kernel}
use grin_wallet.Slates.{combine, Slate, ParticipantData, kernel_features, calc_excess, msg_to_sign}
use grin_wallet.Slates.Signing.{
  finalize_signature, verify_part_sigs, verify_each, verify_sig, part_sigs,
}
use grin_wallet.Slates.Version.RoundTrip.{participants_back}
use grin_wallet.Slates.Version.{v4_with, rebuilt_kernel, rebuilt_features, or_default, calc_slate}

module _ (lib : Libtx) where
  verify_sig_same :
      (s t : Slate lib) (p : ParticipantData lib) (o : Option lib.Signature)
      → s.participant_data ≡ t.participant_data
      → msg_to_sign lib s ≡ msg_to_sign lib t
      → verify_sig lib s p o ≡ verify_sig lib t p o
  verify_sig_same s t p none e m = refl
  verify_sig_same s t p (some sig) e m = λ i. do
    nonce_sum ← combine lib (map (λ q. q.public_nonce) (e i))
    blind_sum ← combine lib (map (λ q. q.public_blind_excess) (e i))
    msg ← m i
    lib.verify_partial_sig sig nonce_sum p.public_blind_excess blind_sum msg

  verify_each_same :
      (s t : Slate lib) (ps : List (ParticipantData lib))
      → s.participant_data ≡ t.participant_data
      → msg_to_sign lib s ≡ msg_to_sign lib t
      → verify_each lib s ps ≡ verify_each lib t ps
  unfolding verify_each
  verify_each_same s t [] e m = refl
  verify_each_same s t (p ∷ ps) e m =
      ap (λ r. r >> verify_each lib s ps) (verify_sig_same s t p p.part_sig e m)
      ∙ ap (λ r. verify_sig lib t p p.part_sig >> r) (verify_each_same s t ps e m)

  verify_part_sigs_same :
      (s t : Slate lib)
      → s.participant_data ≡ t.participant_data
      → msg_to_sign lib s ≡ msg_to_sign lib t
      → verify_part_sigs lib s ≡ verify_part_sigs lib t
  unfolding verify_part_sigs
  verify_part_sigs_same s t e m =
      verify_each_same s t s.participant_data e m ∙ ap (verify_each lib t) e

  -- The signature depends on the participants and the message alone.
  finalize_signature_same :
      (s t : Slate lib)
      → s.participant_data ≡ t.participant_data
      → msg_to_sign lib s ≡ msg_to_sign lib t
      → finalize_signature lib s ≡ finalize_signature lib t
  unfolding finalize_signature
  finalize_signature_same s t e m = λ i. do
    verify_part_sigs_same s t e m i
    nonce_sum ← combine lib (map (λ q. q.public_nonce) (e i))
    final_pubkey ← combine lib (map (λ q. q.public_blind_excess) (e i))
    final_sig ← lib.add_signatures (part_sigs lib (e i)) nonce_sum
    msg ← m i
    lib.verify_completed_sig final_sig final_pubkey final_pubkey msg
    ok final_sig

  calc_excess_same :
      (s t : Slate lib)
      → s.participant_data ≡ t.participant_data
      → calc_excess lib s ≡ calc_excess lib t
  unfolding calc_excess
  calc_excess_same s t e =
      λ i. do sum ← combine lib (map (λ q. q.public_blind_excess) (e i)); lib.from_pubkey sum

  plain_message :
      (s : Slate lib)
      → s.kernel_features ≡ 0
      → msg_to_sign lib s ≡ lib.kernel_sig_msg (plain_kernel s.fee_fields)
  unfolding msg_to_sign
  plain_message s z = let t : (s.kernel_features == 0) ≡ true = ground arith in rw t refl

  plain_features :
      (s : Slate lib)
      → s.kernel_features ≡ 0
      → (kernel_features lib s ≡ ok (plain_kernel s.fee_fields))
        × (rebuilt_features lib (v4_with lib s none) ≡ plain_kernel s.fee_fields)
  unfolding kernel_features
  plain_features s z =
      let t : (s.kernel_features == 0) ≡ true = ground arith in (rw t refl, rw t refl)

  -- The kernel that is built for a plain slate whose signatures are complete has the features that the
  -- slate asks for, its excess and its final signature.
  pub rebuilt_kernel_plain :
      (s : Slate lib) (coms : Option (List (CommitsV4 lib.ext))) (excess : lib.Commitment)
      (sig : lib.Signature)
      → s.kernel_features ≡ 0
      → calc_excess lib s ≡ ok excess
      → finalize_signature lib s ≡ ok sig
      → (kernel_features lib s ≡ ok (rebuilt_kernel lib (v4_with lib s coms)).features)
        × ((rebuilt_kernel lib (v4_with lib s coms)).excess ≡ excess)
        × ((rebuilt_kernel lib (v4_with lib s coms)).excess_sig ≡ sig)
  unfolding rebuilt_kernel
  rebuilt_kernel_plain s coms excess sig z c f =
      let t = calc_slate lib (v4_with lib s coms) in
      let e = participants_back lib s.participant_data in
      let m = plain_message t refl ∙ sym (plain_message s z) in
      (
        (plain_features s z).0 ∙ ap ok (sym (plain_features s z).1),
        ap (or_default lib lib.zero_commitment) (calc_excess_same t s e ∙ c),
        ap (or_default lib lib.zero_signature) (finalize_signature_same t s e m ∙ f),
      )

  -- A height-locked kernel does not come back: the one that is built is plain.
  pub lock_height_lost :
      (s : Slate lib) (coms : Option (List (CommitsV4 lib.ext))) (height : ℕ)
      → s.kernel_features ≡ 2
      → s.kernel_features_args ≡ some height
      → (kernel_features lib s ≡ ok (height_locked s.fee_fields height))
        × ((rebuilt_kernel lib (v4_with lib s coms)).features ≡ plain_kernel s.fee_fields)
  unfolding rebuilt_kernel kernel_features
  lock_height_lost s coms height z a =
      let n0 : (s.kernel_features == 0) ≡ false = ground arith in
      let n1 : (s.kernel_features == 1) ≡ false = ground arith in
      let t2 : (s.kernel_features == 2) ≡ true = ground arith in
      (rw (n0, n1, t2, a) refl, rw (n0, n1) refl)
