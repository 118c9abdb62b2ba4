-- ===== src/Updater/Filter.antt =====
-- The transaction list query (`apply_advanced_tx_list_filtering` of
-- libwallet/src/internal/updater.rs, and its arguments in libwallet/src/api_impl/types.rs). A
-- difference of amounts is compared as an integer: `a - b >= v` is `v + b <= a`.
pub mod Answer
use mathlib.Core.List.{reverse}
use grin_wallet.Prelude.{
  ℕ, ◌+◌, Bool, true, false, not, Option, none, some, List, ◌&&◌, ◌||◌, leb, ltb, ◌==◌,
  if◌then◌else◌, filter, take,
}
use grin_wallet.Prelude.Sort.{sort_by}
use grin_wallet.TxLog.{
  TxLogEntry, TxLogEntryType, is_type, confirmed_coinbase, tx_received, tx_sent,
  tx_received_cancelled, tx_sent_cancelled, tx_reverted,
}
use grin_wallet.Updater.Query.{holds, listed_txs}

pub data SortOrder : Type 0 where
  asc desc : SortOrder

pub data SortField : Type 0 where
  by_id creation_timestamp confirmation_timestamp total_amount amount_credited amount_debited :
      SortField

-- `RetrieveTxQueryArgs`
pub record QueryArgs : Type 0 where
  pub min_id : Option ℕ
  pub max_id : Option ℕ
  pub limit : Option ℕ
  pub exclude_cancelled : Option Bool
  pub include_outstanding_only : Option Bool
  pub include_confirmed_only : Option Bool
  pub include_sent_only : Option Bool
  pub include_received_only : Option Bool
  pub include_coinbase_only : Option Bool
  pub include_reverted_only : Option Bool
  pub min_amount : Option ℕ
  pub max_amount : Option ℕ
  pub min_creation_timestamp : Option ℕ
  pub max_creation_timestamp : Option ℕ
  pub min_confirmed_timestamp : Option ℕ
  pub max_confirmed_timestamp : Option ℕ
  pub sort_field : Option SortField
  pub sort_order : Option SortOrder

-- A filter that stands for its test when its flag is set.
abbrev flagged : Option Bool → Bool → Bool
flagged (some true) test = test
flagged _ test = true

abbrev is_sent : TxLogEntry → Bool
is_sent tx = is_type tx.tx_type tx_sent || is_type tx.tx_type tx_sent_cancelled

abbrev is_received : TxLogEntry → Bool
is_received tx = is_type tx.tx_type tx_received || is_type tx.tx_type tx_received_cancelled

abbrev is_cancelled : TxLogEntry → Bool
is_cancelled tx = is_type tx.tx_type tx_received_cancelled || is_type tx.tx_type tx_sent_cancelled

-- The total amount is `gained - lost`.
abbrev gained : TxLogEntry → ℕ
gained tx = if is_sent tx then tx.amount_debited else tx.amount_credited

abbrev lost : TxLogEntry → ℕ
lost tx = if is_sent tx then tx.amount_credited else tx.amount_debited

unfoldable pub flags_pass : QueryArgs → TxLogEntry → Bool
flags_pass q tx =
    flagged q.exclude_cancelled (not (is_cancelled tx))
    && (flagged q.include_outstanding_only (not tx.confirmed)
        && (flagged q.include_confirmed_only tx.confirmed
            && (flagged q.include_sent_only (is_sent tx)
                && (flagged q.include_received_only (is_received tx)
                    && (flagged q.include_coinbase_only (is_type tx.tx_type confirmed_coinbase)
                        && flagged q.include_reverted_only (is_type tx.tx_type tx_reverted))))))

unfoldable pub bounds_pass : QueryArgs → TxLogEntry → Bool
bounds_pass q tx =
    holds q.min_id (λ v. leb v tx.id)
    && (holds q.max_id (λ v. leb tx.id v)
        && (holds q.min_amount (λ v. leb (v + lost tx) (gained tx))
            && holds q.max_amount (λ v. leb (gained tx) (v + lost tx))))

-- The second test compares the creation time with `min_confirmed_timestamp`, as the code does.
unfoldable pub times_pass : QueryArgs → TxLogEntry → Bool
times_pass q tx =
    holds q.min_creation_timestamp (λ v. leb v tx.creation_ts)
    && (holds q.min_confirmed_timestamp (λ v. leb tx.creation_ts v)
        && (holds q.min_confirmed_timestamp (λ v. holds tx.confirmation_ts (λ t. leb v t))
            && holds q.max_confirmed_timestamp (λ v. holds tx.confirmation_ts (λ t. leb t v))))

unfoldable pub passes : Option ℕ → QueryArgs → TxLogEntry → Bool
unfolding flags_pass bounds_pass times_pass
passes parent_key_id q tx =
    holds parent_key_id (λ k. tx.parent_key_id == k)
    && (flags_pass q tx && (bounds_pass q tx && times_pass q tx))

-- `None` stands before every time.
abbrev opt_leb : Option ℕ → Option ℕ → Bool
opt_leb none b = true
opt_leb (some a) none = false
opt_leb (some a) (some b) = leb a b

abbrev field_leb : SortField → TxLogEntry → TxLogEntry → Bool
field_leb by_id a b = leb a.id b.id
field_leb creation_timestamp a b = leb a.creation_ts b.creation_ts
field_leb confirmation_timestamp a b = opt_leb a.confirmation_ts b.confirmation_ts
field_leb total_amount a b = leb (gained a + lost b) (gained b + lost a)
field_leb amount_credited a b = leb a.amount_credited b.amount_credited
field_leb amount_debited a b = leb a.amount_debited b.amount_debited

abbrev sort_field_of : Option SortField → SortField
sort_field_of none = by_id
sort_field_of (some f) = f

abbrev in_order : Option SortOrder → List TxLogEntry → List TxLogEntry
in_order (some desc) txs = reverse txs
in_order _ txs = txs

abbrev limited : Option ℕ → List TxLogEntry → List TxLogEntry
limited none txs = txs
limited (some l) txs = take l txs

unfoldable pub advanced_filtering : List TxLogEntry → Option ℕ → QueryArgs → List TxLogEntry
unfolding passes
advanced_filtering logs parent_key_id q = limited q.limit (
    in_order q.sort_order
      (sort_by (field_leb (sort_field_of q.sort_field)) (filter (passes parent_key_id q) logs)))

-- The query arguments count only where neither identifier is given.
unfoldable pub retrieve_txs :
    List TxLogEntry → Option ℕ → Option ℕ → Option QueryArgs → Option ℕ → Bool → List TxLogEntry
unfolding advanced_filtering listed_txs
retrieve_txs logs none none (some q) parent_key_id outstanding_only =
    advanced_filtering logs parent_key_id q
retrieve_txs logs tx_id tx_slate_id query_args parent_key_id outstanding_only =
    listed_txs logs tx_id tx_slate_id parent_key_id outstanding_only
