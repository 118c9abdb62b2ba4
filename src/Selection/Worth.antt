-- ===== src/Selection/Worth.antt =====
-- A selection is worth no more than what it selects from (libwallet/src/internal/selection.rs).
use mathlib.Core.List.{reverse, reverse-append}
use grin_wallet.Prelude.{
  ℕ, ◌+◌, ◌≤◌, ◌≡◌, refl, ap, ◌∙◌, inl, inr, Bool, true, false, Option, none, some, List, [], ◌∷◌,
  ◌++◌, if◌then◌else◌, take, arith,
}
use grin_wallet.Prelude.Result.{ok}
use grin_wallet.Output.{OutputData}
use grin_wallet.Selection.{
  take_amount, select_from, first_window, or_largest, or_extended, select_sorted,
}
use grin_wallet.Selection.Cover.{worth, worth-take-le, take_amount-eq-take}
use grin_wallet.Selection.Candidates.{select_from_inv, select_sorted_inv}

worth-append : (xs ys : List OutputData) → worth (xs ++ ys) ≡ worth xs + worth ys
worth-append [] ys = omega arith
worth-append (x ∷ xs) ys = omega (arith, worth-append xs ys)

worth-reverse : (os : List OutputData) → worth (reverse os) ≡ worth os
worth-reverse [] = refl
worth-reverse (o ∷ os) =
    ap worth (reverse-append (o ∷ []) os)
    ∙ omega (arith, worth-append (reverse os) (o ∷ []), worth-reverse os)

worth-chosen-le :
    (all : Bool) (amount : ℕ) (os : List OutputData)
    → worth (if all then os else take_amount amount 0 os) ≤ worth os
worth-chosen-le true amount os = omega arith
worth-chosen-le false amount os = rw (take_amount-eq-take amount 0 os) (worth-take-le _ os)

worth-select_from-le :
    (amount : ℕ) (all : Bool) (os sel : List OutputData)
    → select_from amount all os ≡ some sel
    → worth sel ≤ worth os
worth-select_from-le amount all os sel e =
    rw (select_from_inv amount all os sel e) (worth-chosen-le all amount os)

worth-first_window-le :
    (amount : ℕ) (all : Bool) (n : ℕ) (os sel : List OutputData)
    → first_window amount all n os ≡ some sel
    → worth sel ≤ worth os
unfolding first_window
worth-first_window-le amount all n [] sel e = cc
worth-first_window-le amount all n (o ∷ os) sel e = ground (
  arith,
  worth-take-le n (o ∷ os),
  worth-select_from-le amount all (take n (o ∷ os)) sel,
  worth-first_window-le amount all n os sel,
)

worth-or_largest-le :
    (w : Option (List OutputData)) (n : ℕ) (os : List OutputData)
    → ((sel : List OutputData) → w ≡ some sel → worth sel ≤ worth os)
    → worth (or_largest w n os) ≤ worth os
worth-or_largest-le none n os hw = omega (arith, worth-take-le n (reverse os), worth-reverse os)
worth-or_largest-le (some sel) n os hw = hw sel refl

worth-or_extended-le :
    (w : Option (List OutputData)) (amount n : ℕ) (os : List OutputData)
    → ((sel : List OutputData) → w ≡ some sel → worth sel ≤ worth os)
    → worth (or_extended w amount n os) ≤ worth os
worth-or_extended-le none amount n os hw =
    worth-or_largest-le (select_from amount false os) n os (worth-select_from-le amount false os)
worth-or_extended-le (some sel) amount n os hw = hw sel refl

pub worth-select_sorted-le :
    (amount max_outputs : ℕ) (all : Bool) (os sel : List OutputData)
    → select_sorted amount max_outputs all os ≡ ok sel
    → worth sel ≤ worth os
worth-select_sorted-le amount max_outputs all os sel e =
    elim (select_sorted_inv amount max_outputs all os sel e) [
      | inl extended ↦ rw extended (
          worth-or_extended-le _ amount max_outputs os
            (worth-first_window-le amount all max_outputs os))
      | inr direct ↦
          rw direct (worth-or_largest-le _ max_outputs os (worth-select_from-le amount all os))
    ]
