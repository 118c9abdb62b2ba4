-- ===== src/Slates/Version/RoundTrip.antt =====
-- A slate through version 4 and back (libwallet/src/slate.rs).
use grin_wallet.Prelude.{◌≡◌, refl, sym, ◌∙◌, ap, Option, none, some, List, [], ◌∷◌, ◌++◌, map}
use grin_wallet.Prelude.Result.{ok, ◌>>=◌}
use grin_wallet.Slate.{
  OutputFeatures, plain, coinbase, features_of, features_v4, SlateV4, CommitsV4,
}
use grin_wallet.Libtx.{Libtx, Parts, Input, Output, features_and_commit}
use grin_wallet.Slates.{Slate, ParticipantData, PaymentInfo}
use grin_wallet.Slates.Version.{
  participant_v4, participant_of, payment_v4, payment_of, map_option, input_v4, output_v4, slate_v4,
  upgrade, coms_of, input_commits, v4_with, inputs_of, outputs_of, rebuilt_kernel, with_commits,
  current_slate,
}

features_back : (f : OutputFeatures) → features_of (features_v4 f) ≡ f
features_back plain = refl
features_back coinbase = refl

module _ (lib : Libtx) where
  pub participants_back :
      (ps : List (ParticipantData lib))
      → map (participant_of lib) (map (participant_v4 lib) ps) ≡ ps
  participants_back [] = refl
  participants_back (p ∷ ps) = ap (λ qs. p ∷ qs) (participants_back ps)

  payment_back :
      (p : Option (PaymentInfo lib))
      → map_option lib (payment_of lib) (map_option lib (payment_v4 lib) p) ≡ p
  payment_back none = refl
  payment_back (some p) = refl

  inputs_back :
      (is : List (Input lib.ext)) (os : List (Output lib.ext))
      → inputs_of lib (map (input_v4 lib) is ++ map (output_v4 lib) os) ≡ is
  unfolding inputs_of
  inputs_back [] [] = refl
  inputs_back [] (o ∷ os) = inputs_back [] os
  inputs_back (i ∷ is) os = rw (features_back i.features) (ap (λ js. i ∷ js) (inputs_back is os))

  outputs_back :
      (is : List (Input lib.ext)) (os : List (Output lib.ext))
      → outputs_of lib (map (input_v4 lib) is ++ map (output_v4 lib) os) ≡ os
  unfolding outputs_of
  outputs_back [] [] = refl
  outputs_back [] (o ∷ os) = rw (features_back o.features) (ap (λ js. o ∷ js) (outputs_back [] os))
  outputs_back (i ∷ is) os = outputs_back is os

  abbrev commits : List (Input lib.ext) → lib.Transaction → List (CommitsV4 lib.ext)
  commits is tx = map (input_v4 lib) is ++ map (output_v4 lib) (lib.outputs tx)

  sent :
      (s : Slate lib) (tx : lib.Transaction) (is : List (Input lib.ext))
      → s.tx ≡ some tx
      → lib.inputs tx ≡ features_and_commit is
      → slate_v4 lib s ≡ ok (v4_with lib s (some (commits is tx)))
  unfolding slate_v4
  sent s tx is e i =
      ap (λ o. coms_of lib o >>= λ coms. ok (v4_with lib s coms)) e
      ∙ ap
          (λ r.
            (input_commits lib r >>= λ cs. ok (some (cs ++ map (output_v4 lib) (lib.outputs tx))))
            >>= λ coms. ok (v4_with lib s coms))
          i

  received :
      (s : Slate lib) (cs : List (CommitsV4 lib.ext))
      → upgrade lib (v4_with lib s (some cs)) ≡ record s {
        tx = some (
            with_commits lib
              (v4_with lib s (some cs))
              cs
              (rebuilt_kernel lib (v4_with lib s (some cs))));
      }
  unfolding upgrade
  received s cs =
      let v = v4_with lib s (some cs) in
      let tx = some (with_commits lib v cs (rebuilt_kernel lib v)) in
      ap (λ ps. record (current_slate lib v tx) { participant_data = ps })
        (participants_back s.participant_data)
      ∙ ap (λ p. record s { tx = tx; payment_proof = p }) (payment_back s.payment_proof)

  -- A slate with a transaction that goes through version 4 comes back as it was but for the
  -- transaction: that one has the inputs and outputs of the first one in their order, and one kernel,
  -- which is built from the slate.
  pub upgrade-slate_v4 :
      Parts lib
      → (s : Slate lib) (tx : lib.Transaction) (is : List (Input lib.ext)) → s.tx ≡ some tx
      → lib.inputs tx ≡ features_and_commit is
      → (v : SlateV4 lib.ext) × (tx' : lib.Transaction) × (slate_v4 lib s ≡ ok v)
        × (upgrade lib v ≡ record s { tx = some tx' })
        × (lib.inputs tx' ≡ lib.inputs tx)
        × (lib.outputs tx' ≡ lib.outputs tx)
        × (lib.kernels tx' ≡ rebuilt_kernel lib v ∷ [])
  upgrade-slate_v4 parts s tx is e i =
      let cs = commits is tx in
      let v = v4_with lib s (some cs) in
      let k = rebuilt_kernel lib v in
      let t0 = lib.with_kernel lib.empty_transaction k in
      let t1 = lib.replace_inputs t0 (inputs_of lib cs) in
      let t2 = lib.replace_outputs t1 (outputs_of lib cs) in
      (
        v,
        with_commits lib v cs k,
        sent s tx is e i,
        received s cs,
        parts.inputs-with_offset t2 v.off
            ∙ parts.inputs-replace_outputs t1 (outputs_of lib cs)
            ∙ parts.inputs-replace_inputs t0 (inputs_of lib cs)
            ∙ ap features_and_commit (inputs_back is (lib.outputs tx))
            ∙ sym i,
        parts.outputs-with_offset t2 v.off
            ∙ parts.outputs-replace_outputs t1 (outputs_of lib cs)
            ∙ outputs_back is (lib.outputs tx),
        parts.kernels-with_offset t2 v.off
            ∙ parts.kernels-replace_outputs t1 (outputs_of lib cs)
            ∙ parts.kernels-replace_inputs t0 (inputs_of lib cs)
            ∙ parts.kernels-with_kernel k,
      )
