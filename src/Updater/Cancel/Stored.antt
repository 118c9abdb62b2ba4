-- ===== src/Updater/Cancel/Stored.antt =====
-- The outputs that `cancel_tx` of libwallet/src/internal/tx.rs takes from the database: all of the
-- transaction's that are not spent, and no other.
use grin_wallet.Prelude.{
  ℕ, ◌≡◌, refl, sym, ◌∙◌, ap, ◌⊎◌, inl, inr, Bool, true, false, some, List, [], ◌∷◌, ◌&&◌, any,
  filter, map, All, Bool-cases, Option-cases, arith,
}
use mathlib.Core.Path.{subst}
use grin_wallet.Prelude.Result.{Result, ok, >>=-eq-ok, ok_injective, ◌>>=◌}
use grin_wallet.Prelude.Sort.{insert_by, sort_by, All-sort_by}
use grin_wallet.Bytes.{Bytes, bytes_eq, bytes_eq_refl}
use grin_wallet.Output.{OutputData}
use grin_wallet.Backend.{Env, Wallet, iter}
use grin_wallet.Updater.Query.{is_retrieved, retrieved_outputs, with_commits, commit_of}
use grin_wallet.Updater.Cancel.Restored.{
  key_of, settled, is_of_tx, at_key, IsStored, IsUnderWay, Good, is_pending, post, Good-done, Keyed,
}

module _ {ℓ} {A : Type ℓ} where
  any-insert_by :
      (le : A → A → Bool) (q : A → Bool) (a : A) (bs : List A)
      → any q (insert_by le a bs) ≡ any q (a ∷ bs)
  unfolding insert_by any
  any-insert_by le q a [] = refl
  any-insert_by le q a (b ∷ bs) = ground (arith, any-insert_by le q a bs)

  pub any-sort_by :
      (le : A → A → Bool) (q : A → Bool) (xs : List A) → any q (sort_by le xs) ≡ any q xs
  unfolding sort_by any
  any-sort_by le q [] = refl
  any-sort_by le q (x ∷ xs) =
      ground (arith, any-sort_by le q xs, any-insert_by le q x (sort_by le xs))

  pub any-filter : (p q : A → Bool) (xs : List A) → any q (filter p xs) ≡ any (λ x. p x && q x) xs
  unfolding filter any
  any-filter p q [] = refl
  any-filter p q (x ∷ xs) = ground (arith, any-filter p q xs)

  pub any-false : (r : A → Bool) (xs : List A) → any r xs ≡ false → All (λ v. r v ≡ false) xs
  unfolding any
  any-false r [] e = tt
  any-false r (x ∷ xs) e = elim (Bool-cases (r x)) [
    | inl t ↦ cc
    | inr f ↦ (f, any-false r xs (ground arith))
  ]

  filter-All_if {κ λ'} :
      (P : A → Type κ) (Q : A → Type λ') (p : A → Bool)
      → ((a : A) → p a ≡ true → P a → Q a)
      → (xs : List A) → All P xs
      → All Q (filter p xs)
  unfolding filter
  filter-All_if P Q p f [] h = tt
  filter-All_if P Q p f (x ∷ xs) (h, hs) = elim (Bool-cases (p x)) [
    | inl e ↦ rw e (f x e h, filter-All_if P Q p f xs hs)
    | inr e ↦ rw e (filter-All_if P Q p f xs hs)
  ]

-- Adding the commitments loses no output.
pub with_commits-fst :
    (commit : ℕ → ℕ → Result ℕ) (os : List OutputData) (res : List (OutputData × ℕ))
    → with_commits commit os ≡ ok res
    → map (λ m. m.0) res ≡ os
unfolding with_commits
with_commits-fst commit [] res e = rw (sym (ok_injective e)) refl
with_commits-fst commit (o ∷ os) res e =
    let (c, hc, k) =
      >>=-eq-ok (commit_of commit o.commit o.value o.key_id)
        (λ c. with_commits commit os >>= λ rest. ok ((o, c) ∷ rest)) e in
    let (rest, hr, l) = >>=-eq-ok (with_commits commit os) (λ rest. ok ((o, c) ∷ rest)) k in
    subst (λ r. map (λ m. m.0) r ≡ o ∷ os) (ok_injective l)
      (ap (λ t. o ∷ t) (with_commits-fst commit os rest hr))

-- What is retrieved of a transaction: its outputs that are not spent.
is_retrieved-is_of_tx :
    (id parent_key_id : ℕ) (o : OutputData)
    → is_retrieved false (some id) (some parent_key_id) o ≡ true
    → is_of_tx id parent_key_id o ≡ true
unfolding is_retrieved
is_retrieved-is_of_tx id parent_key_id o h = ground arith

settled_or_retrieved :
    (id parent_key_id : ℕ) (o : OutputData)
    → is_of_tx id parent_key_id o ≡ true
    → (settled o ≡ some o) ⊎ (is_retrieved false (some id) (some parent_key_id) o ≡ true)
unfolding is_retrieved
settled_or_retrieved id parent_key_id o h = ground arith

module _ (env : Env) (id parent_key_id : ℕ) (w : Wallet env) where
  abbrev found : List OutputData
  found = retrieved_outputs (iter env w) false (some id) (some parent_key_id)

  pub All-found : Keyed env w → All (IsStored env id parent_key_id w) found
  unfolding retrieved_outputs
  All-found keyed = All-sort_by _ (IsStored env id parent_key_id w) _ (
      filter-All_if (λ o. at_key env w (key_of o) ≡ some o) (IsStored env id parent_key_id w) _
        (λ o r s. record { at = s; of_tx = is_retrieved-is_of_tx id parent_key_id o r })
        (iter env w)
        (env.iter_sound w.outputs (λ o. at_key env w (key_of o) ≡ some o)
          (λ k o e. rw (keyed k o e) e)))

  is_pending-found :
      Keyed env w
      → (k : Bytes) (o : OutputData) → at_key env w k ≡ some o
      → is_retrieved false (some id) (some parent_key_id) o ≡ true
      → is_pending env id parent_key_id w found k ≡ true
  unfolding retrieved_outputs
  is_pending-found keyed k o e r = elim (Bool-cases (is_pending env id parent_key_id w found k)) [
    | inl t ↦ t
    | inr f ↦ ground (
      arith,
      bytes_eq_refl k,
      keyed k o e,
      env.iter_complete w.outputs
          (λ v.
            (is_retrieved false (some id) (some parent_key_id) v && bytes_eq (key_of v) k) ≡ false)
          (any-false _ (iter env w)
            (sym (any-filter _ _ (iter env w)) ∙ sym (any-sort_by _ _ _) ∙ f))
          k o e,
    )
  ]

  unchanged :
      (k : Bytes) (o : OutputData)
      → at_key env w k ≡ some o
      → (is_of_tx id parent_key_id o ≡ false) ⊎ (settled o ≡ some o)
      → at_key env w k ≡ post env id parent_key_id w k
  unchanged k o e (inl f) = rw e (rw f refl)
  unchanged k o e (inr f) = rw e (ground (arith, f))

  found_pending :
      Keyed env w
      → (k : Bytes) (o : OutputData) → at_key env w k ≡ some o
      → (settled o ≡ some o) ⊎ (is_retrieved false (some id) (some parent_key_id) o ≡ true)
      → Good env id parent_key_id w (is_pending env id parent_key_id w found k) k (at_key env w k)
  found_pending keyed k o e (inl s) =
      Good-done env id parent_key_id w _ k _ (unchanged k o e (inr s))
  found_pending keyed k o e (inr r) = rw (is_pending-found keyed k o e r) (inl refl)

  found_at :
      Keyed env w
      → (k : Bytes) (o : OutputData) → at_key env w k ≡ some o
      → (is_of_tx id parent_key_id o ≡ true) ⊎ (is_of_tx id parent_key_id o ≡ false)
      → Good env id parent_key_id w (is_pending env id parent_key_id w found k) k (at_key env w k)
  found_at keyed k o e (inl t) =
      found_pending keyed k o e (settled_or_retrieved id parent_key_id o t)
  found_at keyed k o e (inr f) = Good-done env id parent_key_id w _ k _ (unchanged k o e (inl f))

  pub found-IsUnderWay : Keyed env w → IsUnderWay env id parent_key_id w found w
  found-IsUnderWay keyed k = elim (Option-cases (at_key env w k)) [
    | inl e ↦ Good-done env id parent_key_id w _ k _ (rw e refl)
    | inr (o, e) ↦ found_at keyed k o e (Bool-cases (is_of_tx id parent_key_id o))
  ]
