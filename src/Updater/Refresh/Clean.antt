-- ===== src/Updater/Refresh/Clean.antt =====
-- The removal of old unconfirmed coinbases (`clean_old_unconfirmed` of
-- libwallet/src/internal/updater.rs).
use mathlib.Core.Path.{subst}
use grin_wallet.Prelude.{
  ℕ, ◌≤◌, ◌≡◌, refl, sym, ◌∙◌, ap, inl, inr, Bool, true, false, Option, none, some, List, [], ◌∷◌,
  any, map, filter, ltb, if◌then◌else◌, Bool-cases, some_injective, arith,
}
use grin_wallet.Prelude.Result.{ok}
use grin_wallet.Prelude.Exec.{for_each}
use grin_wallet.Bytes.{Bytes, bytes_eq, bytes_eq_refl, bytes_eq→eq}
use grin_wallet.Output.{OutputData}
use grin_wallet.Backend.{Env, Wallet, Op, delete, output_key, iter}
use grin_wallet.Updater.Cancel.Restored.{Keyed}
use grin_wallet.Updater.Refresh.Old.{
  picked_none, picked_one, IsOld, is_old_unconfirmed-IsOld, IsOld-is_old_unconfirmed,
}
use grin_wallet.Updater.Refresh.{is_old_unconfirmed, clean_old_unconfirmed}

abbrev without : Bool → Option OutputData → Option OutputData
without true o = none
without false o = o

without-if :
    (a c : Bool) (o : Option OutputData)
    → without a (if c then none else o) ≡ without (if c then true else a) o
without-if true true o = refl
without-if true false o = refl
without-if false true o = refl
without-if false false o = refl

-- The removal at one key, by the test of the code.
abbrev if_not_old : Env → ℕ → Option OutputData → Option OutputData
if_not_old env height none = none
if_not_old env height (some o) = if is_old_unconfirmed env height o then none else some o

module _ (env : Env) where
  abbrev removal : List ℕ → Op env (Unit {0})
  removal ids = for_each ids (λ id. delete env id none)

  get-removal :
      (ids : List ℕ) (w : Wallet env) (k : Bytes)
      → env.get (removal ids w).1.outputs k
        ≡ without (any (λ id. bytes_eq (output_key id none) k) ids) (env.get w.outputs k)
  unfolding for_each delete any
  get-removal [] w k = refl
  get-removal (id ∷ ids) w k =
      let gone = any (λ id'. bytes_eq (output_key id' none) k) ids in
      get-removal ids (delete env id none w).1 k
      ∙ ap (without gone) (env.get-delete w.outputs (output_key id none) k)
      ∙ without-if gone (bytes_eq (output_key id none) k) (env.get w.outputs k)

  removal_ok : (ids : List ℕ) (w : Wallet env) → (removal ids w).0 ≡ ok tt
  unfolding for_each delete
  removal_ok [] w = refl
  removal_ok (id ∷ ids) w = removal_ok ids (delete env id none w).1

  -- No unconfirmed coinbase that is old carries an index into the chain.
  abbrev pub NoOldIndex : ℕ → Wallet env → Type 0
  NoOldIndex height w =
      (k : Bytes) (o : OutputData)
      → env.get w.outputs k ≡ some o
      → IsOld height o
      → o.mmr_index ≡ none

  abbrev old_ids : ℕ → Wallet env → List ℕ
  old_ids height w = map (λ out. out.key_id) (filter (is_old_unconfirmed env height) (iter env w))

  abbrev is_hit : Bytes → ℕ → Bool
  is_hit k id = bytes_eq (output_key id none) k

  own_key :
      (w : Wallet env) (k : Bytes) (o : OutputData)
      → Keyed env w
      → env.get w.outputs k ≡ some o
      → o.mmr_index ≡ none
      → output_key o.key_id none ≡ k
  own_key w k o keyed e n = ap (output_key o.key_id) (sym n) ∙ keyed k o e

  old_is_hit :
      (height : ℕ) (w : Wallet env) (k : Bytes) (o : OutputData)
      → Keyed env w
      → NoOldIndex height w
      → env.get w.outputs k ≡ some o
      → is_old_unconfirmed env height o ≡ true
      → any (is_hit k) (old_ids height w) ≡ true
  old_is_hit height w k o keyed no_index e old =
      elim (Bool-cases (any (is_hit k) (old_ids height w))) [
        | inl t ↦ t
        | inr f ↦
            let missed =
              env.iter_complete w.outputs
                (λ x. is_old_unconfirmed env height x ≡ true → is_hit k x.key_id ≡ false)
                (picked_none (λ x. x.key_id) (is_old_unconfirmed env height) (is_hit k) (iter env w)
                  f)
                k o e old in
            let same =
              own_key w k o keyed e (no_index k o e (is_old_unconfirmed-IsOld env height o old)) in
            let hit = ap (λ j. bytes_eq j k) same ∙ bytes_eq_refl k in cc
      ]

  hit_is_old :
      (height : ℕ) (w : Wallet env) (k : Bytes)
      → Keyed env w
      → NoOldIndex height w
      → any (is_hit k) (old_ids height w) ≡ true
      → (x : OutputData) × (env.get w.outputs k ≡ some x) × (is_old_unconfirmed env height x ≡ true)
  hit_is_old height w k keyed no_index t =
      let (x, (j, e), old, hit) =
        picked_one (λ x. x.key_id) (is_old_unconfirmed env height) (is_hit k)
          (λ x. (j : Bytes) × (env.get w.outputs j ≡ some x)) (iter env w)
          (env.iter_sound w.outputs _ (λ j x e. (j, e))) t in
      let old_x = is_old_unconfirmed-IsOld env height x old in
      let same = sym (own_key w j x keyed e (no_index j x e old_x)) ∙ bytes_eq→eq _ k hit in
      (x, subst (λ i. env.get w.outputs i ≡ some x) same e, old)

  removed_old :
      (height : ℕ) (w : Wallet env) (k : Bytes)
      → Keyed env w
      → NoOldIndex height w
      → (r : Option OutputData) → env.get w.outputs k ≡ r
      → without (any (is_hit k) (old_ids height w)) r ≡ if_not_old env height r
  removed_old height w k keyed no_index none e =
      elim (Bool-cases (any (is_hit k) (old_ids height w))) [
        | inl t ↦ rw t refl
        | inr f ↦ rw f refl
      ]
  removed_old height w k keyed no_index (some o) e =
      elim (Bool-cases (is_old_unconfirmed env height o)) [
        | inl t ↦ rw (old_is_hit height w k o keyed no_index e t, t) refl
        | inr f ↦ elim (Bool-cases (any (is_hit k) (old_ids height w))) [
          | inl t ↦
              let (x, e', old) = hit_is_old height w k keyed no_index t in
              let same = some_injective (sym e' ∙ e) in cc
          | inr g ↦ rw (g, f) refl
        ]
      ]

  not_old_kept :
      (height : ℕ) (r : Option OutputData)
      → ((o : OutputData) → r ≡ some o → ¬ (IsOld height o))
      → if_not_old env height r ≡ r
  not_old_kept height none h = refl
  not_old_kept height (some o) h = elim (Bool-cases (is_old_unconfirmed env height o)) [
    | inl t ↦ absurd (h o refl (is_old_unconfirmed-IsOld env height o t))
    | inr f ↦ rw f refl
  ]

  old_gone :
      (height : ℕ) (r : Option OutputData) (o : OutputData)
      → r ≡ some o
      → IsOld height o
      → if_not_old env height r ≡ none
  old_gone height r o e old = rw e (rw (IsOld-is_old_unconfirmed env height o old) refl)

  -- The removal of old coinbases takes away exactly those: from block 50 on, where the wallet is
  -- unlocked, its outputs stand under their own keys and no old unconfirmed coinbase has an index
  -- into the chain, it succeeds; a key that held an unconfirmed coinbase of a height above 0 and
  -- more than 50 blocks ago holds nothing afterwards, and any other key what it held before.
  pub clean_old_unconfirmed-get :
      (height : ℕ) (w : Wallet env)
      → 50 ≤ height
      → env.unlocked ≡ ok tt
      → Keyed env w
      → NoOldIndex height w
      → ((clean_old_unconfirmed env height w).0 ≡ ok tt)
        × ((k : Bytes) (o : OutputData)
            → env.get w.outputs k ≡ some o
            → IsOld height o
            → env.get (clean_old_unconfirmed env height w).1.outputs k ≡ none)
        × ((k : Bytes)
            → ((o : OutputData) → env.get w.outputs k ≡ some o → ¬ (IsOld height o))
            → env.get (clean_old_unconfirmed env height w).1.outputs k ≡ env.get w.outputs k)
  unfolding clean_old_unconfirmed
  clean_old_unconfirmed-get height w b u keyed no_index =
      let late : ltb height 50 ≡ false = ground arith in
      let done = removal_ok (old_ids height w) w in
      let at = λ (k : Bytes).
        get-removal (old_ids height w) w k
        ∙ removed_old height w k keyed no_index (env.get w.outputs k) refl in
      rw (late, u, done)
        (
          refl,
          λ k o e old. at k ∙ old_gone height (env.get w.outputs k) o e old,
          λ k h. at k ∙ not_old_kept height (env.get w.outputs k) h,
        )
