-- ===== src/Store/Assoc.antt =====
-- A concrete database: a table is a list of keys and values, the newest first. It shows that the laws
-- that the wallet relies on can hold.
use grin_wallet.Prelude.{
  ◌≡◌, refl, inl, inr, Bool, false, Option, none, some, List, [], ◌∷◌, any, All, if◌then◌else◌,
  Bool-cases, some_injective, arith,
}
use mathlib.Core.Path.{subst}
use grin_wallet.Bytes.{Bytes, bytes_eq, bytes_eq→eq, bytes_eq_refl}
use grin_wallet.Store.{Store}

abbrev Rows : Type 0 → Type 0
Rows V = List (Bytes × V)

abbrev is_seen : List Bytes → Bytes → Bool
is_seen seen k = any (λ s. bytes_eq s k) seen

module _ {V : Type 0} where
  unfoldable pub lookup : Rows V → Bytes → Option V
  lookup [] j = none
  lookup ((k, v) ∷ t) j = let rest = lookup t j in if bytes_eq k j then some v else rest

  unfoldable pub remove : Rows V → Bytes → Rows V
  remove [] k = []
  remove ((j, v) ∷ t) k = let rest = remove t k in if bytes_eq k j then rest else (j, v) ∷ rest

  -- The values whose keys have not been seen further up.
  unfoldable pub values : List Bytes → Rows V → List V
  values seen [] = []
  values seen ((k, v) ∷ t) =
      let old = values seen t in
      let new = values (k ∷ seen) t in if is_seen seen k then old else v ∷ new

  pub lookup-remove :
      (t : Rows V) (k j : Bytes)
      → lookup (remove t k) j ≡ (if bytes_eq k j then none else lookup t j)
  unfolding lookup remove
  lookup-remove [] k j = ground arith
  lookup-remove ((i, v) ∷ t) k j = ground (
    arith,
    lookup-remove t k j,
    bytes_eq→eq i j,
    bytes_eq→eq k j,
    bytes_eq→eq k i,
    bytes_eq_refl j,
  )

  module _ (P : V → Type 0) where
    abbrev pub Unseen : List Bytes → Rows V → Type 0
    Unseen seen t = (j : Bytes) (u : V) → is_seen seen j ≡ false → lookup t j ≡ some u → P u

    All-values : (seen : List Bytes) (t : Rows V) → Unseen seen t → All P (values seen t)
    unfolding values lookup any
    All-values seen [] h = tt
    All-values seen ((k, v) ∷ t) h = elim (Bool-cases (is_seen seen k)) [
      | inl e ↦ rw e (
          All-values seen t (λ j u s f. elim (Bool-cases (bytes_eq k j)) [
            | inl b ↦ ground (arith, bytes_eq→eq k j b)
            | inr b ↦ h j u s (rw b f)
          ]))
      | inr e ↦ rw e (
        h k v e (rw (bytes_eq_refl k) refl),
        All-values (k ∷ seen) t (λ j u s f. elim (Bool-cases (bytes_eq k j)) [
          | inl b ↦ ground (arith, b)
          | inr b ↦ h j u (ground (arith, b)) (rw b f)
        ]),
      )
    ]

    values-All : (seen : List Bytes) (t : Rows V) → All P (values seen t) → Unseen seen t
    unfolding values lookup any
    values-All seen [] h j u s f = cc
    values-All seen ((k, v) ∷ t) h j u s f = elim (Bool-cases (is_seen seen k)) [
      | inl e ↦ elim (Bool-cases (bytes_eq k j)) [
        | inl b ↦ ground (arith, bytes_eq→eq k j b)
        | inr b ↦ values-All seen t (rw e at h) j u s (rw b at f)
      ]
      | inr e ↦ elim (Bool-cases (bytes_eq k j)) [
        | inl b ↦ subst P (some_injective (rw b at f)) (rw e at h).0
        | inr b ↦ values-All (k ∷ seen) t (rw e at h).1 j u (ground (arith, b)) (rw b at f)
      ]
    ]

  pub lookup-put :
      (t : Rows V) (k j : Bytes) (v : V)
      → lookup ((k, v) ∷ t) j ≡ (if bytes_eq k j then some v else lookup t j)
  unfolding lookup
  lookup-put t k j v = refl

  module _ (t : Rows V) (P : V → Type 0) where
    pub values_sound : ((k : Bytes) (v : V) → lookup t k ≡ some v → P v) → All P (values [] t)
    values_sound h = All-values P [] t (λ j u s f. h j u f)

    pub values_complete : All P (values [] t) → (k : Bytes) (v : V) → lookup t k ≡ some v → P v
    unfolding any
    values_complete h k v f = values-All P [] t h k v refl f

-- The database of the tests.
abbrev pub assoc_store : Store
assoc_store = record {
  Table = Rows;
  get = lookup;
  put = λ t k v. (k, v) ∷ t;
  delete = remove;
  iter = values [];
  get-put = lookup-put;
  get-delete = lookup-remove;
  iter_sound = values_sound;
  iter_complete = values_complete;
}
