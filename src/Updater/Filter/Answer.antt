-- ===== src/Updater/Filter/Answer.antt =====
-- What the transaction list query answers (libwallet/src/internal/updater.rs).
use mathlib.Core.List.{reverse, reverse-append}
use grin_wallet.Prelude.{
  ℕ, ◌+◌, ◌≤◌, ◌≡◌, refl, true, false, Option, none, some, List, [], ◌∷◌, All, All-append, All-take,
  filter, filter-All, ◌<◌, arith, &&-eq-true, leb, ◌==◌, ◌&&◌,
}
use grin_wallet.Prelude.Sort.{sort_by, All-sort_by}
use grin_wallet.TxLog.{TxLogEntry}
use grin_wallet.Updater.Query.{holds, holds-some}
use grin_wallet.Updater.Filter.{
  QueryArgs, SortOrder, asc, desc, passes, field_leb, sort_field_of, in_order, limited, gained,
  lost, advanced_filtering, flags_pass, bounds_pass, times_pass,
}

module _ {κ} (P : TxLogEntry → Type κ) where
  All-reverse : (xs : List TxLogEntry) → All P xs → All P (reverse xs)
  All-reverse [] h = tt
  All-reverse (x ∷ xs) (p, h) =
      rw (reverse-append (x ∷ []) xs)
        (All-append P (reverse xs) (x ∷ []) (All-reverse xs h) (p, tt))

  All-in_order : (o : Option SortOrder) (xs : List TxLogEntry) → All P xs → All P (in_order o xs)
  All-in_order none xs h = h
  All-in_order (some asc) xs h = h
  All-in_order (some desc) xs h = All-reverse xs h

  All-limited : (l : Option ℕ) (xs : List TxLogEntry) → All P xs → All P (limited l xs)
  All-limited none xs h = h
  All-limited (some l) xs h = All-take P l xs h

  All-map :
      {Q : TxLogEntry → Type κ} (f : (x : TxLogEntry) → Q x → P x) (xs : List TxLogEntry)
      → All Q xs
      → All P xs
  All-map f [] h = tt
  All-map f (x ∷ xs) (q, h) = (f x q, All-map f xs h)

-- What a query with bounds asks of an entry.
pub record IsAnswer (parent_key_id : Option ℕ) (q : QueryArgs) (tx : TxLogEntry) : Type 0 where
  pub parent : (k : ℕ) → parent_key_id ≡ some k → tx.parent_key_id ≡ k
  pub above_id : (v : ℕ) → q.min_id ≡ some v → v ≤ tx.id
  pub below_id : (v : ℕ) → q.max_id ≡ some v → tx.id ≤ v
  pub above_amount : (v : ℕ) → q.min_amount ≡ some v → v + lost tx ≤ gained tx
  pub below_amount : (v : ℕ) → q.max_amount ≡ some v → gained tx ≤ v + lost tx
  pub created_after : (v : ℕ) → q.min_creation_timestamp ≡ some v → v ≤ tx.creation_ts
  pub outstanding : q.include_outstanding_only ≡ some true → tx.confirmed ≡ false
  pub is_confirmed : q.include_confirmed_only ≡ some true → tx.confirmed ≡ true

module _ (q : QueryArgs) (tx : TxLogEntry) where
  times_second :
      times_pass q tx ≡ true → holds q.min_confirmed_timestamp (λ v. leb tx.creation_ts v) ≡ true
  unfolding times_pass
  times_second e = ground arith

leb_le : (a b : ℕ) → leb a b ≡ true → a ≤ b
leb_le a b h = ground arith

passes-created_before :
    (parent_key_id : Option ℕ) (q : QueryArgs) (v : ℕ)
    → q.min_confirmed_timestamp ≡ some v
    → (tx : TxLogEntry) → passes parent_key_id q tx ≡ true
    → tx.creation_ts ≤ v
unfolding passes
passes-created_before parent_key_id q v h tx e =
    let (p, fbt) =
      &&-eq-true (holds parent_key_id (λ k. tx.parent_key_id == k))
        (flags_pass q tx && (bounds_pass q tx && times_pass q tx)) e in
    let (f, bt) = &&-eq-true (flags_pass q tx) (bounds_pass q tx && times_pass q tx) fbt in
    let (b, t) = &&-eq-true (bounds_pass q tx) (times_pass q tx) bt in
    leb_le _ v
      (holds-some q.min_confirmed_timestamp (λ u. leb tx.creation_ts u) v (times_second q tx t) h)

-- The query that asks for no more than that entries were created until a time.
abbrev pub created_until : ℕ → QueryArgs
created_until u = record {
  min_id = none;
  max_id = none;
  limit = none;
  exclude_cancelled = none;
  include_outstanding_only = none;
  include_confirmed_only = none;
  include_sent_only = none;
  include_received_only = none;
  include_coinbase_only = none;
  include_reverted_only = none;
  min_amount = none;
  max_amount = none;
  min_creation_timestamp = none;
  max_creation_timestamp = some u;
  min_confirmed_timestamp = none;
  max_confirmed_timestamp = none;
  sort_field = none;
  sort_order = none;
}

-- The bounds on the times are mixed up. The upper bound on the creation time has no effect, for any
-- query: queries that differ in nothing else have the same answer, and an entry created after the
-- bound is the answer of the query that has this bound and no other condition. And the lower bound
-- on the confirmation time, where it is set, is an upper bound on the creation time: no entry of the
-- answer was created after it.
pub creation_bounds_mixed_up :
    (logs : List TxLogEntry) (parent_key_id : Option ℕ) (q : QueryArgs)
    → ((u : Option ℕ)
        → advanced_filtering logs parent_key_id (record q { max_creation_timestamp = u })
          ≡ advanced_filtering logs parent_key_id q)
      × ((tx : TxLogEntry) (u : ℕ)
          → u < tx.creation_ts
          → advanced_filtering (tx ∷ []) none (created_until u) ≡ tx ∷ [])
      × ((v : ℕ)
          → q.min_confirmed_timestamp ≡ some v
          → All (λ tx. tx.creation_ts ≤ v) (advanced_filtering logs parent_key_id q))
unfolding advanced_filtering passes flags_pass bounds_pass times_pass filter sort_by
creation_bounds_mixed_up logs parent_key_id q = (
  λ u. refl,
  λ tx u late. refl,
  λ v h. All-limited _ q.limit _ (
      All-in_order _ q.sort_order _ (
        All-sort_by (field_leb (sort_field_of q.sort_field)) _ _ (
          All-map _ (passes-created_before parent_key_id q v h) _
            (filter-All (passes parent_key_id q) logs)))),
)
