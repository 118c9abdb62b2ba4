-- ===== src/Keys/Fresh.antt =====
-- A new account (`new_acct_path` of libwallet/src/internal/keys.rs).
use text.Mathlib.Text.{◌==◌ as str_eq}
use Prim.Native.String.{String}
use native.Mathlib.Nat.{mod-eq_of_lt}
use mathlib.Core.Path.{subst}
use grin_wallet.Prelude.{
  ℕ, ◌+◌, ◌%◌, ◌^◌, ◌≤◌, ◌<◌, ◌≡◌, refl, sym, ◌∙◌, ap, inl, inr, Bool-cases, true, false, none,
  some, List, [], ◌∷◌, ltb, any, All, Option-cases, some_injective, arith,
}
use grin_wallet.Prelude.Result.{ok, err, account_label_already_exists}
use grin_wallet.Backend.{Env, Wallet, AcctPathMapping, acct_path_iter, save_acct_path}
use grin_wallet.Keys.{Paths, highest_entry, next_path, new_acct_path}

module _ (paths : Paths) where
  abbrev index : AcctPathMapping → ℕ
  index a = paths.first_index a.path

  All-mono :
      (m n : ℕ) (as' : List AcctPathMapping)
      → m ≤ n
      → All (λ a. index a ≤ m) as'
      → All (λ a. index a ≤ n) as'
  All-mono m n [] h k = tt
  All-mono m n (a ∷ as') h (p, k) = (omega arith, All-mono m n as' h k)

  none_higher :
      (P : AcctPathMapping → Type 0) (as' : List AcctPathMapping)
      → highest_entry paths as' ≡ none
      → All P as'
  unfolding highest_entry
  none_higher P [] h = tt
  none_higher P (a ∷ as') h = cc

  All-highest_entry :
      (P : AcctPathMapping → Type 0) (as' : List AcctPathMapping) (e : AcctPathMapping)
      → highest_entry paths as' ≡ some e
      → All P as'
      → P e
  unfolding highest_entry
  All-highest_entry P [] e h k = cc
  All-highest_entry P (a ∷ as') e h (p, k) = elim (Option-cases (highest_entry paths as')) [
    | inl n ↦ subst P (some_injective (rw n at h)) p
    | inr (b, s) ↦ elim (Bool-cases (ltb (index b) (index a))) [
      | inl l ↦ subst P (some_injective (rw (s, l) at h)) p
      | inr l ↦ subst P (some_injective (rw (s, l) at h)) (All-highest_entry P as' b s k)
    ]
  ]

  All-lt :
      (m n : ℕ) (as' : List AcctPathMapping)
      → m + 1 ≡ n
      → All (λ a. index a ≤ m) as'
      → All (λ a. index a < n) as'
  All-lt m n [] h k = tt
  All-lt m n (a ∷ as') h (p, k) = (omega (arith, h), All-lt m n as' h k)

  highest_entry-ge :
      (as' : List AcctPathMapping) (e : AcctPathMapping)
      → highest_entry paths as' ≡ some e
      → All (λ a. index a ≤ index e) as'
  unfolding highest_entry
  highest_entry-ge [] e h = cc
  highest_entry-ge (a ∷ as') e h = elim (Option-cases (highest_entry paths as')) [
    | inl n ↦ (ground (arith, n), none_higher _ as' n)
    | inr (b, s) ↦ (
      ground (arith, s),
      All-mono (index b) (index e) as' (ground (arith, s)) (highest_entry-ge as' b s),
    )
  ]

  -- The index of the path that a new account gets.
  next_path-gt :
      ((p i : ℕ) → i < 2 ^ 32 → paths.first_index (paths.set_first_index p i) ≡ i)
      → (as' : List AcctPathMapping) → All (λ a. index a + 1 < 2 ^ 32) as'
      → All (λ a. index a < paths.first_index (next_path paths (highest_entry paths as'))) as'
  next_path-gt law as' b = elim (Option-cases (highest_entry paths as')) [
    | inl n ↦ none_higher _ as' n
    | inr (e, s) ↦
        let bound = All-highest_entry (λ a. index a + 1 < 2 ^ 32) as' e s b in
        let fits = mod-eq_of_lt bound in
        All-lt (index e) _ as'
          (sym (
            ap (λ o. paths.first_index (next_path paths o)) s
            ∙ law e.path ((index e + 1) % 2 ^ 32) (subst (λ i. i < 2 ^ 32) (sym fits) bound)
            ∙ fits))
          (highest_entry-ge as' e s)
  ]

new_id :
    (env : Env) (paths : Paths) (label : String) (w : Wallet env) (id : ℕ)
    → (new_acct_path env paths label w).0 ≡ ok id
    → (any (λ l. str_eq l.label label) (acct_path_iter env w) ≡ false)
      × (next_path paths (highest_entry paths (acct_path_iter env w)) ≡ id)
unfolding new_acct_path save_acct_path
new_id env paths label w id e = ground arith

-- A new account gets a label that no account has and a path that no account has: where it succeeds
-- and child numbers of 32 bits are left, the first index of its path is above that of every account.
-- A label that an account has is refused, and the wallet is left as it was.
pub new_acct_path_fresh :
    (env : Env) (paths : Paths) (label : String) (w : Wallet env)
    → ((p i : ℕ) → i < 2 ^ 32 → paths.first_index (paths.set_first_index p i) ≡ i)
    → All (λ a. paths.first_index a.path + 1 < 2 ^ 32) (acct_path_iter env w)
    → ((id : ℕ)
        → (new_acct_path env paths label w).0 ≡ ok id
        → (any (λ l. str_eq l.label label) (acct_path_iter env w) ≡ false)
          × All (λ a. paths.first_index a.path < paths.first_index id) (acct_path_iter env w))
      × (any (λ l. str_eq l.label label) (acct_path_iter env w) ≡ true
          → new_acct_path env paths label w ≡ (err account_label_already_exists, w))
unfolding new_acct_path
new_acct_path_fresh env paths label w law b = (
  λ id e.
      let (f, n) = new_id env paths label w id e in
      (
        f,
        subst
            (λ i. All (λ a. paths.first_index a.path < paths.first_index i) (acct_path_iter env w))
            n (next_path-gt paths law (acct_path_iter env w) b),
      ),
  λ t. rw t refl,
)
