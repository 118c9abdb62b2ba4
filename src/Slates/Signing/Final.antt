-- ===== src/Slates/Signing/Final.antt =====
-- What a finalized slate holds (`finalize` of libwallet/src/slate.rs).
use mathlib.Core.Path.{subst}
use grin_wallet.Prelude.{
  ◌≤◌, ◌≡◌, sym, ◌∙◌, ap, Option, none, some, List, [], ◌∷◌, All, length, ltb, Bool-cases, inl, inr,
  arith, some_injective,
}
use grin_wallet.Prelude.Result.{ok, >>=-eq-ok, ok_injective}
use grin_wallet.Core.{Core}
use grin_wallet.Libtx.{Libtx, Parts, TxKernel}
use grin_wallet.Slates.{
  Slate, ParticipantData, tx_of, tx_or_err, pub_nonce_sum, pub_blind_sum, msg_to_sign, calc_excess,
}
use grin_wallet.Slates.Signing.{
  verify_sig, verify_each, verify_part_sigs, part_sigs, finalize_signature, num_inputs, check_fees,
  finalize_transaction, finalize, only_kernel, first_kernel,
}

module _ (lib : Libtx) (s : Slate lib) where
  -- A signature is one of the participant's key over the message of the slate.
  abbrev pub IsSignature : ParticipantData lib → lib.Signature → Type 0
  IsSignature p sig =
      (nonce_sum key_sum : lib.PublicKey) × (msg : lib.Message) × (pub_nonce_sum lib s
        ≡ ok nonce_sum)
      × (pub_blind_sum lib s ≡ ok key_sum)
      × (msg_to_sign lib s ≡ ok msg)
      × (lib.verify_partial_sig sig nonce_sum p.public_blind_excess key_sum msg ≡ ok tt)

  abbrev pub IsSigned : ParticipantData lib → Type 0
  IsSigned p = (sig : lib.Signature) → p.part_sig ≡ some sig → IsSignature p sig

  verify_sig-IsSigned :
      (p : ParticipantData lib) (o : Option lib.Signature)
      → verify_sig lib s p o ≡ ok tt
      → (sig : lib.Signature) → o ≡ some sig
      → IsSignature p sig
  verify_sig-IsSigned p none e sig h = cc
  verify_sig-IsSigned p (some t) e sig h =
      let (nonce_sum, a, b) = >>=-eq-ok (pub_nonce_sum lib s) _ e in
      let (key_sum, c, d) = >>=-eq-ok (pub_blind_sum lib s) _ b in
      let (msg, f, g) = >>=-eq-ok (msg_to_sign lib s) _ d in
      (
        nonce_sum,
        key_sum,
        msg,
        a,
        c,
        f,
        subst (λ u. lib.verify_partial_sig u nonce_sum p.public_blind_excess key_sum msg ≡ ok tt)
            (some_injective h) g,
      )

  verify_each-All :
      (ps : List (ParticipantData lib)) → verify_each lib s ps ≡ ok tt → All IsSigned ps
  unfolding verify_each
  verify_each-All [] e = tt
  verify_each-All (p ∷ ps) e =
      let (u, a, b) = >>=-eq-ok (verify_sig lib s p p.part_sig) (λ _. verify_each lib s ps) e in
      (verify_sig-IsSigned p p.part_sig a, verify_each-All ps b)

  -- A slate whose transaction has one kernel, of the slate's excess and a signature under the sum of
  -- the keys over the slate's message, which both verify.
  pub record IsFinal (core : Core) (s' : Slate lib) : Type 0 where
    pub old : lib.Transaction
    pub tx : lib.Transaction
    pub from : s.tx ≡ some old
    pub pays :
        core.tx_fee
          (num_inputs lib (lib.inputs old))
          (length (lib.outputs old))
          (length (lib.kernels old))
        ≤ lib.tx_fee old
    pub kernel : TxKernel lib.ext
    pub key : lib.PublicKey
    pub nonce : lib.PublicKey
    pub msg : lib.Message
    pub has_tx : s'.tx ≡ some tx
    pub same_slate : s' ≡ record s { tx = some tx }
    pub one_kernel : lib.kernels tx ≡ kernel ∷ []
    pub excess : calc_excess lib s ≡ ok kernel.excess
    pub keys : pub_blind_sum lib s ≡ ok key
    pub nonces : pub_nonce_sum lib s ≡ ok nonce
    pub message : msg_to_sign lib s ≡ ok msg
    pub aggregated :
        lib.add_signatures (part_sigs lib s.participant_data) nonce ≡ ok kernel.excess_sig
    pub signed : lib.verify_completed_sig kernel.excess_sig key key msg ≡ ok tt
    pub kernel_verified : lib.verify_kernel kernel ≡ ok tt
    pub validated : lib.validate tx ≡ ok tt
    pub participants : All IsSigned s.participant_data

  module _ (parts : Parts lib) (core : Core) where
    only_kernel-one :
        (ks : List (TxKernel lib.ext)) (k : TxKernel lib.ext)
        → only_kernel lib ks ≡ ok k
        → ks ≡ k ∷ []
    only_kernel-one [] k e = cc
    only_kernel-one (j ∷ []) k e = ap (λ x. x ∷ []) (ok_injective e)
    only_kernel-one (j ∷ i ∷ ks) k e = cc

    first_kernel-one :
        (t : lib.Transaction) (j k : TxKernel lib.ext)
        → first_kernel lib (lib.kernels (lib.replace_kernel t j)) ≡ ok k
        → j ≡ k
    first_kernel-one t j k e =
        ok_injective (ap (first_kernel lib) (sym (parts.kernels-replace_kernel t j)) ∙ e)

    tx_or_err-some :
        (o : Option lib.Transaction) (t : lib.Transaction) → tx_of lib o ≡ ok t → o ≡ some t
    tx_or_err-some none t e = cc
    tx_or_err-some (some u) t e = ap some (ok_injective e)

    check_fees-pays :
        (t : lib.Transaction)
        → s.tx ≡ some t
        → check_fees lib core s ≡ ok tt
        → core.tx_fee
            (num_inputs lib (lib.inputs t))
            (length (lib.outputs t))
            (length (lib.kernels t))
          ≤ lib.tx_fee t
    unfolding check_fees
    check_fees-pays t h e =
        let fee =
          core.tx_fee (num_inputs lib (lib.inputs t)) (length (lib.outputs t))
            (length (lib.kernels t)) in
        elim (Bool-cases (ltb (lib.tx_fee t) fee)) [
          | inl less ↦ cc (rw (h, less) at e)
          | inr pays ↦ grind arith
        ]

    -- A slate that is finalized is final: its transaction has one kernel, with the excess of the
    -- slate and the sum of the partial signatures, which verifies under the sum of the keys for the
    -- message of the slate; the kernel and the transaction verify, and so does every partial
    -- signature.
    pub finalize-IsFinal : (s' : Slate lib) → finalize lib core s ≡ ok s' → IsFinal core s'
    unfolding finalize finalize_signature finalize_transaction verify_part_sigs
    finalize-IsFinal s' e =
        let (sig, a, b) = >>=-eq-ok (finalize_signature lib s) _ e in
        let (u, c, d) = >>=-eq-ok (verify_part_sigs lib s) _ a in
        let (nonce, f, g) = >>=-eq-ok (pub_nonce_sum lib s) _ d in
        let (key, h, i) = >>=-eq-ok (pub_blind_sum lib s) _ g in
        let (sig', j, k) =
          >>=-eq-ok (lib.add_signatures (part_sigs lib s.participant_data) nonce) _ i in
        let (msg, l, m) = >>=-eq-ok (msg_to_sign lib s) _ k in
        let (v, n, o) = >>=-eq-ok (lib.verify_completed_sig sig' key key msg) _ m in
        let (w, p, q) = >>=-eq-ok (check_fees lib core s) _ b in
        let (excess, r, t) = >>=-eq-ok (calc_excess lib s) _ q in
        let (old, x, y) = >>=-eq-ok (tx_or_err lib s) _ t in
        let from = tx_or_err-some s.tx old x in
        let (kernel, z, a') = >>=-eq-ok (only_kernel lib (lib.kernels old)) _ y in
        let final_kernel = record kernel { excess = excess; excess_sig = sig } in
        let final_tx = lib.replace_kernel old final_kernel in
        let (k', b', c') = >>=-eq-ok (first_kernel lib (lib.kernels final_tx)) _ a' in
        let same = first_kernel-one old final_kernel k' b' in
        let (u', d', e') = >>=-eq-ok (lib.verify_kernel k') _ c' in
        let (v', f', g') = >>=-eq-ok (lib.validate final_tx) _ e' in
        let sig-eq = ok_injective o in
        record {
          old = old;
          tx = final_tx;
          from = from;
          pays = check_fees-pays old from p;
          kernel = final_kernel;
          key = key;
          nonce = nonce;
          msg = msg;
          has_tx = ap (λ v. v.tx) (sym (ok_injective g'));
          same_slate = sym (ok_injective g');
          one_kernel = parts.kernels-replace_kernel old final_kernel;
          excess = r;
          keys = h;
          nonces = f;
          message = l;
          aggregated = j ∙ ap ok sig-eq;
          signed = subst (λ x. lib.verify_completed_sig x key key msg ≡ ok tt) sig-eq n;
          kernel_verified = ap lib.verify_kernel same ∙ d';
          validated = f';
          participants = verify_each-All s.participant_data c;
        }
