-- ===== src/Slates/Participants.antt =====
-- The entries of the participants (`add_participant_info` and `remove_other_sigdata` of
-- libwallet/src/slate.rs).
use mathlib.Core.Path.{subst}
use mathlib.Core.List.{append-nil}
use grin_wallet.Prelude.{
  ◌≡◌, refl, ◌∙◌, ap, Bool, true, false, not, ◌&&◌, ◌||◌, Option, none, List, [], ◌∷◌, ◌++◌, filter,
  Bool-cases, Option-cases, sym, some, &&-eq-true, inl, inr, arith,
}
use grin_wallet.Prelude.Result.{ok}
use grin_wallet.Context.{Context}
use grin_wallet.Libtx.{Libtx, KeyEq}
use grin_wallet.Slates.{
  Slate, ParticipantData, is_entry, kept_sig, add_participant_info, fill_round_1,
  remove_other_sigdata,
}

module _ {ℓ} {A : Type ℓ} (p : A → Bool) where
  filter-append : (xs ys : List A) → filter p (xs ++ ys) ≡ filter p xs ++ filter p ys
  unfolding filter
  filter-append [] ys = refl
  filter-append (x ∷ xs) ys = ground (arith, filter-append xs ys)

  filter-filter : (xs : List A) → filter p (filter p xs) ≡ filter p xs
  unfolding filter
  filter-filter [] = refl
  filter-filter (x ∷ xs) = elim (Bool-cases (p x)) [
    | inl e ↦ rw (e, e) (ap (λ l. x ∷ l) (filter-filter xs))
    | inr e ↦ rw e (filter-filter xs)
  ]

  filter_opposite :
      (q : A → Bool) → ((x : A) → q x ≡ not (p x)) → (xs : List A) → filter p (filter q xs) ≡ []
  unfolding filter
  filter_opposite q h [] = refl
  filter_opposite q h (x ∷ xs) = elim (Bool-cases (p x)) [
    | inl e ↦ let f : q x ≡ false = h x ∙ ap not e in rw f (filter_opposite q h xs)
    | inr e ↦ let f : q x ≡ true = h x ∙ ap not e in rw (f, e) (filter_opposite q h xs)
  ]

module _ (lib : Libtx) (keys : KeyEq lib) (pub_key pub_nonce : lib.PublicKey) where
  abbrev mine : ParticipantData lib → Bool
  mine = is_entry lib pub_key pub_nonce

  -- The test by which `add_participant_info` keeps an entry.
  abbrev pub other : ParticipantData lib → Bool
  other v =
      not (lib.key_eq v.public_nonce pub_nonce) || not (lib.key_eq v.public_blind_excess pub_key)

  other-not : (v : ParticipantData lib) → other v ≡ not (mine v)
  other-not v = either (lib.key_eq v.public_nonce pub_nonce)
    where
      either :
          (a : Bool)
          → (not a || not (lib.key_eq v.public_blind_excess pub_key))
            ≡ not (a && lib.key_eq v.public_blind_excess pub_key)
      either true = refl
      either false = refl

  abbrev pub entry : Option lib.Signature → ParticipantData lib
  entry sig = record { public_blind_excess = pub_key; public_nonce = pub_nonce; part_sig = sig }

  mine_entry : (sig : Option lib.Signature) → mine (entry sig) ≡ true
  mine_entry sig =
      rw ((keys.key_eq_iff pub_nonce pub_nonce).1 refl, (keys.key_eq_iff pub_key pub_key).1 refl)
        refl

  -- An entry under both keys.
  abbrev pub Own : ParticipantData lib → Type 0
  Own v = (v.public_nonce ≡ pub_nonce) × (v.public_blind_excess ≡ pub_key)

  -- The first signature that an own entry has, where one has any.
  pub data IsFirstSig : List (ParticipantData lib) → Option lib.Signature → Type 0 where
    nowhere : IsFirstSig [] none
    here :
        (v : ParticipantData lib) (vs : List (ParticipantData lib)) (sig : lib.Signature)
        → Own v
        → v.part_sig ≡ some sig
        → IsFirstSig (v ∷ vs) (some sig)
    unsigned :
        (v : ParticipantData lib) (vs : List (ParticipantData lib)) (sig : Option lib.Signature)
        → v.part_sig ≡ none
        → IsFirstSig vs sig
        → IsFirstSig (v ∷ vs) sig
    not_own :
        (v : ParticipantData lib) (vs : List (ParticipantData lib)) (sig : Option lib.Signature)
        → ¬ (Own v)
        → IsFirstSig vs sig
        → IsFirstSig (v ∷ vs) sig

  mine-Own : (v : ParticipantData lib) → mine v ≡ true → Own v
  mine-Own v e =
      let (a, b) =
        &&-eq-true (lib.key_eq v.public_nonce pub_nonce) (lib.key_eq v.public_blind_excess pub_key)
          e in
      ((keys.key_eq_iff _ _).0 a, (keys.key_eq_iff _ _).0 b)

  Own-mine : (v : ParticipantData lib) → Own v → mine v ≡ true
  Own-mine v (a, b) = rw ((keys.key_eq_iff _ _).1 a, (keys.key_eq_iff _ _).1 b) refl

  kept_some :
      (sig : lib.Signature) (vs : List (ParticipantData lib))
      → kept_sig lib pub_key pub_nonce (some sig) vs ≡ some sig
  unfolding kept_sig
  kept_some sig [] = refl
  kept_some sig (v ∷ vs) = elim (Bool-cases (mine v)) [
    | inl e ↦ rw e (kept_some sig vs)
    | inr e ↦ rw e (kept_some sig vs)
  ]

  kept_of_mine :
      (v : ParticipantData lib) (vs : List (ParticipantData lib)) (sig : Option lib.Signature)
      → mine v ≡ true
      → v.part_sig ≡ sig
      → kept_sig lib pub_key pub_nonce none (v ∷ vs) ≡ kept_sig lib pub_key pub_nonce sig vs
  unfolding kept_sig
  kept_of_mine v vs sig e s = rw e (ap (λ g. kept_sig lib pub_key pub_nonce g vs) s)

  kept_of_other :
      (v : ParticipantData lib) (vs : List (ParticipantData lib))
      → mine v ≡ false
      → kept_sig lib pub_key pub_nonce none (v ∷ vs) ≡ kept_sig lib pub_key pub_nonce none vs
  unfolding kept_sig
  kept_of_other v vs e = rw e refl

  kept_sig-IsFirstSig :
      (vs : List (ParticipantData lib)) → IsFirstSig vs (kept_sig lib pub_key pub_nonce none vs)
  unfolding kept_sig
  kept_sig-IsFirstSig [] = nowhere
  kept_sig-IsFirstSig (v ∷ vs) = elim (Bool-cases (mine v)) [
    | inl e ↦ elim (Option-cases v.part_sig) [
      | inl none_here ↦
          subst (IsFirstSig (v ∷ vs)) (sym (kept_of_mine v vs none e none_here))
            (unsigned v vs _ none_here (kept_sig-IsFirstSig vs))
      | inr (sig, s) ↦
          subst (IsFirstSig (v ∷ vs)) (sym (kept_of_mine v vs (some sig) e s ∙ kept_some sig vs))
            (here v vs sig (mine-Own v e) s)
    ]
    | inr e ↦
        subst (IsFirstSig (v ∷ vs)) (sym (kept_of_other v vs e))
          (not_own v vs _ (λ own. let both = Own-mine v own in cc) (kept_sig-IsFirstSig vs))
  ]

  -- Among other entries nothing is found, and then the own entry.
  kept_of_others :
      (vs : List (ParticipantData lib)) (sig : Option lib.Signature)
      → kept_sig lib pub_key pub_nonce none (filter other vs ++ (entry sig ∷ [])) ≡ sig
  unfolding filter kept_sig
  kept_of_others [] sig = rw (mine_entry sig) refl
  kept_of_others (v ∷ vs) sig = elim (Bool-cases (mine v)) [
    | inl e ↦ let f : other v ≡ false = other-not v ∙ ap not e in rw f (kept_of_others vs sig)
    | inr e ↦
        let f : other v ≡ true = other-not v ∙ ap not e in
        rw f (kept_of_other v (filter other vs ++ (entry sig ∷ [])) e ∙ kept_of_others vs sig)
  ]

  abbrev pub filled : Slate lib → Option lib.Signature → Slate lib
  filled s sig = record s { participant_data = filter other s.participant_data ++ (entry sig ∷ []) }

  others-filled :
      (s : Slate lib) (sig : Option lib.Signature)
      → filter other (filled s sig).participant_data ≡ filter other s.participant_data
  unfolding filter
  others-filled s sig =
      let f : other (entry sig) ≡ false = other-not (entry sig) ∙ ap not (mine_entry sig) in
      filter-append other (filter other s.participant_data) (entry sig ∷ [])
      ∙ ap (λ xs. xs ++ filter other (entry sig ∷ [])) (filter-filter other s.participant_data)
      ∙ rw f (append-nil (filter other s.participant_data))

  mine-filled :
      (s : Slate lib) (sig : Option lib.Signature)
      → filter mine (filled s sig).participant_data ≡ entry sig ∷ []
  unfolding filter
  mine-filled s sig =
      filter-append mine (filter other s.participant_data) (entry sig ∷ [])
      ∙ ap (λ xs. xs ++ filter mine (entry sig ∷ []))
          (filter_opposite mine other other-not s.participant_data)
      ∙ rw (mine_entry sig) refl

  fill_round_1_lem :
      (s : Slate lib) (context : Context)
      → lib.from_secret_key context.sec_key ≡ ok pub_key
      → lib.from_secret_key context.sec_nonce ≡ ok pub_nonce
      → fill_round_1 lib s context
        ≡ ok (filled s (kept_sig lib pub_key pub_nonce none s.participant_data))
  unfolding add_participant_info
  fill_round_1_lem s context k n = rw (k, n) refl

  -- Round 1 leaves the entries of others in the slate, in their order, and puts behind them one entry
  -- under the keys of the context, with the first signature that an earlier entry under both keys
  -- had, where one had any; nothing else of the slate changes. Round 1 once more changes nothing,
  -- and taking the data of the others off leaves that entry alone.
  pub fill_round_1_once :
      (s : Slate lib) (context : Context)
      → lib.from_secret_key context.sec_key ≡ ok pub_key
      → lib.from_secret_key context.sec_nonce ≡ ok pub_nonce
      → (sig : Option lib.Signature) × IsFirstSig s.participant_data sig
        × (fill_round_1 lib s context ≡ ok (filled s sig))
        × (fill_round_1 lib (filled s sig) context ≡ ok (filled s sig))
        × (remove_other_sigdata lib (filled s sig) context.sec_nonce context.sec_key
            ≡ ok (record s { participant_data = entry sig ∷ [] }))
  unfolding remove_other_sigdata
  fill_round_1_once s context k n =
      let sig = kept_sig lib pub_key pub_nonce none s.participant_data in
      (
        sig,
        kept_sig-IsFirstSig s.participant_data,
        fill_round_1_lem s context k n,
        fill_round_1_lem (filled s sig) context k n
            ∙ ap (λ g. ok (record s { participant_data = g }))
                (ap
                    (λ xs.
                      xs
                      ++ (entry
                            (kept_sig lib pub_key pub_nonce none (filled s sig).participant_data)
                          ∷ []))
                    (others-filled s sig)
                  ∙ ap (λ g. filter other s.participant_data ++ (entry g ∷ []))
                      (kept_of_others s.participant_data sig)),
        rw (n, k) (ap (λ ps. ok (record s { participant_data = ps })) (mine-filled s sig)),
      )
