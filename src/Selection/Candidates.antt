-- ===== src/Selection/Candidates.antt =====
-- The sorted eligible outputs hold what the wallet holds and no more (`eligible_outputs` and the
-- sort of libwallet/src/internal/selection.rs).
use mathlib.Core.List.{reverse, reverse-append}
use grin_wallet.Prelude.{
  ℕ, ◌+◌, ◌≤◌, ◌≡◌, refl, sym, ap, ◌∙◌, Bool, true, false, List, [], ◌∷◌, leb, ◌==◌, ◌&&◌,
  if◌then◌else◌, length, take, filter, filter-All, All, All-append, All-take, Option, Option-cases,
  none, some, ltb, ◌⊎◌, length-append, arith, Bool-cases, inl, inr,
}
use grin_wallet.Prelude.Result.{ok, ok_injective}
use grin_wallet.Output.{OutputData, eligible_to_spend}
use grin_wallet.Selection.{
  eligible_outputs, select_from, take_amount, first_window, or_largest, or_extended, select_sorted,
  insert_by_value, sort_by_value, Request, candidates,
}
use grin_wallet.Selection.Cover.{worth, take_amount-eq-take}

worth-filter-le : (p : OutputData → Bool) (os : List OutputData) → worth (filter p os) ≤ worth os
unfolding filter
worth-filter-le p [] = omega arith
worth-filter-le p (o ∷ os) = ground (arith, worth-filter-le p os)

worth-insert :
    (o : OutputData) (os : List OutputData) → worth (insert_by_value o os) ≡ o.value + worth os
unfolding insert_by_value
worth-insert o [] = refl
worth-insert o (x ∷ os) = ground (arith, worth-insert o os)

worth-sort : (os : List OutputData) → worth (sort_by_value os) ≡ worth os
unfolding sort_by_value
worth-sort [] = refl
worth-sort (o ∷ os) = omega (arith, worth-insert o (sort_by_value os), worth-sort os)

pub worth-candidates-le :
    (outputs : List OutputData) (r : Request) → worth (candidates outputs r) ≤ worth outputs
unfolding eligible_outputs
worth-candidates-le outputs r = omega (
  arith,
  worth-sort (eligible_outputs outputs r.current_height r.minimum_confirmations r.parent_key_id),
  worth-filter-le
      (λ output.
        output.root_key_id == r.parent_key_id
        && eligible_to_spend output r.current_height r.minimum_confirmations)
      outputs,
)

pub length-reverse : (os : List OutputData) → length (reverse os) ≡ length os
length-reverse [] = refl
length-reverse (o ∷ os) =
    ap length (reverse-append (o ∷ []) os)
    ∙ omega (arith, length-append (reverse os) (o ∷ []), length-reverse os)

module _ {κ} (P : OutputData → Type κ) where
  All-insert :
      (o : OutputData) (os : List OutputData) → P o → All P os → All P (insert_by_value o os)
  unfolding insert_by_value
  All-insert o [] p h = (p, tt)
  All-insert o (x ∷ os) p (px, h) = elim (Bool-cases (leb o.value x.value)) [
    | inl e ↦ rw e (p, (px, h))
    | inr e ↦ rw e (px, All-insert o os p h)
  ]

  All-sort : (os : List OutputData) → All P os → All P (sort_by_value os)
  unfolding sort_by_value
  All-sort [] h = tt
  All-sort (o ∷ os) (p, h) = All-insert o (sort_by_value os) p (All-sort os h)

-- What `eligible_outputs` keeps: outputs of the account that may be spent.
abbrev pub IsCandidate : Request → OutputData → Type 0
IsCandidate r o =
    (o.root_key_id ≡ r.parent_key_id)
    × (eligible_to_spend o r.current_height r.minimum_confirmations ≡ true)

IsCandidate-of :
    (r : Request) (os : List OutputData)
    → All
        (λ o.
          ((o.root_key_id == r.parent_key_id)
            && eligible_to_spend o r.current_height r.minimum_confirmations)
          ≡ true)
        os
    → All (IsCandidate r) os
IsCandidate-of r [] h = tt
IsCandidate-of r (o ∷ os) h = (ground arith, IsCandidate-of r os h.1)

pub candidates-IsCandidate :
    (outputs : List OutputData) (r : Request) → All (IsCandidate r) (candidates outputs r)
unfolding eligible_outputs
candidates-IsCandidate outputs r =
    All-sort (IsCandidate r) _ (IsCandidate-of r _ (filter-All _ outputs))

pub select_from_inv :
    (amount : ℕ) (all : Bool) (os sel : List OutputData)
    → select_from amount all os ≡ some sel
    → sel ≡ (if all then os else take_amount amount 0 os)
unfolding select_from
select_from_inv amount all os sel e = ground arith

pub select_sorted_inv :
    (amount max_outputs : ℕ) (all : Bool) (os sel : List OutputData)
    → select_sorted amount max_outputs all os ≡ ok sel
    → (sel ≡ or_extended (first_window amount all max_outputs os) amount max_outputs os)
      ⊎ (sel ≡ or_largest (select_from amount all os) max_outputs os)
unfolding select_sorted
select_sorted_inv amount max_outputs all os sel e =
    elim (Bool-cases (ltb max_outputs (length os))) [
      | inl more ↦ elim (Bool-cases (max_outputs == 0)) [
        | inl zero_window ↦ cc (rw (more, zero_window) at e)
        | inr window ↦ inl (sym (ok_injective (rw (more, window) at e)))
      ]
      | inr few ↦ inr (sym (ok_injective (rw few at e)))
    ]

module _ {κ} (P : OutputData → Type κ) where
  All-reverse : (os : List OutputData) → All P os → All P (reverse os)
  All-reverse [] h = tt
  All-reverse (o ∷ os) (p, h) =
      rw (reverse-append (o ∷ []) os)
        (All-append P (reverse os) (o ∷ []) (All-reverse os h) (p, tt))

  All-take_amount :
      (amount acc : ℕ) (os : List OutputData) → All P os → All P (take_amount amount acc os)
  All-take_amount amount acc os h = rw (take_amount-eq-take amount acc os) (All-take P _ os h)

  All-chosen :
      (all : Bool) (amount : ℕ) (os : List OutputData)
      → All P os
      → All P (if all then os else take_amount amount 0 os)
  All-chosen true amount os h = h
  All-chosen false amount os h = All-take_amount amount 0 os h

  All-select_from :
      (amount : ℕ) (all : Bool) (os sel : List OutputData)
      → select_from amount all os ≡ some sel
      → All P os
      → All P sel
  All-select_from amount all os sel e h =
      rw (select_from_inv amount all os sel e) (All-chosen all amount os h)

  All-first_window :
      (amount : ℕ) (all : Bool) (n : ℕ) (os sel : List OutputData)
      → first_window amount all n os ≡ some sel
      → All P os
      → All P sel
  unfolding first_window
  All-first_window amount all n [] sel e h = cc
  All-first_window amount all n (o ∷ os) sel e h = elim (Bool-cases (ltb (length (o ∷ os)) n)) [
    | inl short ↦ cc (rw short at e)
    | inr room ↦ elim (Option-cases (select_from amount all (take n (o ∷ os)))) [
      | inl no_sum ↦ All-first_window amount all n os sel (ground arith) h.1
      | inr (s, found) ↦
          All-select_from amount all (take n (o ∷ os)) sel (ground arith) (All-take P n (o ∷ os) h)
    ]
  ]

  All-or_largest :
      (w : Option (List OutputData)) (max_outputs : ℕ) (os : List OutputData)
      → ((sel : List OutputData) → w ≡ some sel → All P sel)
      → All P os
      → All P (or_largest w max_outputs os)
  All-or_largest none max_outputs os hw h = All-take P max_outputs (reverse os) (All-reverse os h)
  All-or_largest (some sel) max_outputs os hw h = hw sel refl

  All-or_extended :
      (w : Option (List OutputData)) (amount max_outputs : ℕ) (os : List OutputData)
      → ((sel : List OutputData) → w ≡ some sel → All P sel)
      → All P os
      → All P (or_extended w amount max_outputs os)
  All-or_extended none amount max_outputs os hw h =
      All-or_largest (select_from amount false os) max_outputs os
        (λ sel e. All-select_from amount false os sel e h) h
  All-or_extended (some sel) amount max_outputs os hw h = hw sel refl

  -- Whatever branch the selection takes, it selects from its input only.
  pub All-select_sorted :
      (amount max_outputs : ℕ) (all : Bool) (os sel : List OutputData)
      → select_sorted amount max_outputs all os ≡ ok sel
      → All P os
      → All P sel
  All-select_sorted amount max_outputs all os sel e h =
      elim (select_sorted_inv amount max_outputs all os sel e) [
        | inl extended ↦ rw extended (
            All-or_extended _ amount max_outputs os
              (λ s w. All-first_window amount all max_outputs os s w h) h)
        | inr direct ↦
            rw direct
              (All-or_largest _ max_outputs os (λ s w. All-select_from amount all os s w h) h)
      ]
