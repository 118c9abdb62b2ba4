-- ===== src/Slates/Signing.antt =====
-- Round 2 and the end of a transaction (libwallet/src/slate.rs): partial signatures, the final
-- signature and the final transaction.
pub mod Final
use grin_wallet.Prelude.{
  ℕ, zero, suc, ◌&&◌, Option, none, some, List, [], ◌∷◌, length, ltb, if◌then◌else◌, add64,
}
use grin_wallet.Prelude.Result.{Result, ok, err, panic, ◌>>=◌, ◌>>◌, fee_error}
use grin_wallet.Bytes.{Bytes}
use grin_wallet.Core.{Core}
use grin_wallet.Libtx.{Libtx, Inputs, commit_only, features_and_commit, TxKernel}
use grin_wallet.Slates.{
  Slate, ParticipantData, tx_or_err, participants, pub_nonce_sum, pub_blind_sum, msg_to_sign,
  calc_excess,
}

module _ (lib : Libtx) where
  abbrev pub verify_sig : Slate lib → ParticipantData lib → Option lib.Signature → Result (Unit {0})
  verify_sig s p none = ok tt
  verify_sig s p (some sig) = do
    nonce_sum ← pub_nonce_sum lib s
    blind_sum ← pub_blind_sum lib s
    msg ← msg_to_sign lib s
    lib.verify_partial_sig sig nonce_sum p.public_blind_excess blind_sum msg

  unfoldable pub verify_each : Slate lib → List (ParticipantData lib) → Result (Unit {0})
  verify_each s [] = ok tt
  verify_each s (p ∷ ps) = verify_sig s p p.part_sig >> verify_each s ps

  unfoldable pub verify_part_sigs : Slate lib → Result (Unit {0})
  unfolding verify_each msg_to_sign
  verify_part_sigs s = verify_each s s.participant_data

  -- `for i in 0..n`: the first entry under the keys gets the signature; an index behind the last
  -- entry is a panic.
  unfoldable pub set_sig :
      lib.PublicKey
      → lib.PublicKey
      → lib.Signature
      → ℕ
      → List (ParticipantData lib)
      → Result (List (ParticipantData lib))
  set_sig pub_excess pub_nonce sig zero ps = ok ps
  set_sig pub_excess pub_nonce sig (suc n) [] = panic
  set_sig pub_excess pub_nonce sig (suc n) (p ∷ ps) =
      let rest = set_sig pub_excess pub_nonce sig n ps in
      if lib.key_eq p.public_blind_excess pub_excess && lib.key_eq p.public_nonce pub_nonce
      then ok (record p { part_sig = some sig } ∷ ps)
      else (do ps' ← rest; ok (p ∷ ps'))

  unfoldable pub fill_round_2 : Slate lib → Bytes → Bytes → Result (Slate lib)
  unfolding verify_part_sigs set_sig msg_to_sign
  fill_round_2 s sec_key sec_nonce = do
    verify_part_sigs s
    nonce_sum ← pub_nonce_sum lib s
    blind_sum ← pub_blind_sum lib s
    msg ← msg_to_sign lib s
    sig_part ← lib.calculate_partial_sig sec_key sec_nonce nonce_sum blind_sum msg
    pub_excess ← lib.from_secret_key sec_key
    pub_nonce ← lib.from_secret_key sec_nonce
    ps ←
        set_sig pub_excess pub_nonce sig_part (participants lib s.num_participants)
          s.participant_data
    ok (record s { participant_data = ps })

  abbrev with_sig : Option lib.Signature → List lib.Signature → List lib.Signature
  with_sig none sigs = sigs
  with_sig (some sig) sigs = sig ∷ sigs

  unfoldable pub part_sigs : List (ParticipantData lib) → List lib.Signature
  part_sigs [] = []
  part_sigs (p ∷ ps) = with_sig p.part_sig (part_sigs ps)

  unfoldable pub finalize_signature : Slate lib → Result lib.Signature
  unfolding verify_part_sigs part_sigs msg_to_sign
  finalize_signature s = do
    verify_part_sigs s
    nonce_sum ← pub_nonce_sum lib s
    final_pubkey ← pub_blind_sum lib s
    final_sig ← lib.add_signatures (part_sigs s.participant_data) nonce_sum
    msg ← msg_to_sign lib s
    lib.verify_completed_sig final_sig final_pubkey final_pubkey msg
    ok final_sig

  -- `inputs().len()`
  abbrev pub num_inputs : Inputs lib.ext → ℕ
  num_inputs (commit_only cs) = length cs
  num_inputs (features_and_commit is) = length is

  unfoldable pub check_fees : Core → Slate lib → Result (Unit {0})
  check_fees core s = do
    tx ← tx_or_err lib s
    let fee : ℕ =
        core.tx_fee (num_inputs (lib.inputs tx)) (length (lib.outputs tx)) (length (lib.kernels tx))
    if ltb (lib.tx_fee tx) fee
        then err fee_error
        else if ltb (add64 s.amount (lib.fee s.fee_fields)) fee
        then err fee_error
        else ok tt

  -- `assert_eq!(kernels().len(), 1)`
  abbrev pub only_kernel : List (TxKernel lib.ext) → Result (TxKernel lib.ext)
  only_kernel [] = panic
  only_kernel (k ∷ []) = ok k
  only_kernel (k ∷ j ∷ ks) = panic

  -- `kernels()[0]`
  abbrev pub first_kernel : List (TxKernel lib.ext) → Result (TxKernel lib.ext)
  first_kernel [] = panic
  first_kernel (k ∷ ks) = ok k

  unfoldable pub finalize_transaction : Core → Slate lib → lib.Signature → Result (Slate lib)
  unfolding check_fees calc_excess
  finalize_transaction core s final_sig = do
    check_fees core s
    final_excess ← calc_excess lib s
    tx ← tx_or_err lib s
    kernel ← only_kernel (lib.kernels tx)
    let final_tx =
        lib.replace_kernel tx (record kernel { excess = final_excess; excess_sig = final_sig })
    kernel' ← first_kernel (lib.kernels final_tx)
    lib.verify_kernel kernel'
    lib.validate final_tx
    ok (record s { tx = some final_tx })

  unfoldable pub finalize : Core → Slate lib → Result (Slate lib)
  unfolding finalize_signature finalize_transaction
  finalize core s = do final_sig ← finalize_signature s; finalize_transaction core s final_sig
