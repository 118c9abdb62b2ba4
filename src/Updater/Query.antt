-- ===== src/Updater/Query.antt =====
-- Outputs and log entries of the wallet (`retrieve_outputs`, `retrieve_txs` and
-- `map_wallet_outputs` of libwallet/src/internal/updater.rs).
use grin_wallet.Prelude.{
  ℕ, ◌≡◌, Bool, true, not, Option, none, some, List, [], ◌∷◌, ◌&&◌, ◌||◌, leb, ◌==◌, opt_eq,
  if◌then◌else◌, filter, any,
}
use grin_wallet.Prelude.Result.{Result, ok, err, panic, ◌>>=◌, ◌>>◌}
use grin_wallet.Prelude.Sort.{sort_by}
use grin_wallet.Output.{OutputData, is_status, spent, unspent}
use grin_wallet.TxLog.{TxLogEntry, is_type, tx_received, tx_sent, tx_reverted}
use grin_wallet.Backend.{Env, Wallet, iter, tx_log_iter}

-- An optional condition: `None` is no condition.
abbrev pub holds {ℓ} : {A : Type ℓ} → Option A → (A → Bool) → Bool
holds none p = true
holds (some a) p = p a

-- A condition that is set holds.
pub holds-some {ℓ} :
    {A : Type ℓ} (o : Option A) (p : A → Bool) (a : A) → holds o p ≡ true → o ≡ some a → p a ≡ true
holds-some none p a h e = cc
holds-some (some b) p a h e = cc

abbrev by_n_child : OutputData → OutputData → Bool
by_n_child a b = leb a.n_child b.n_child

-- The filters of `retrieve_outputs`.
unfoldable pub is_retrieved : Bool → Option ℕ → Option ℕ → OutputData → Bool
is_retrieved show_spent tx_id parent_key_id out =
    (show_spent || not (is_status out.status spent))
    && (holds tx_id (λ id. opt_eq out.tx_log_entry (some id))
        && holds parent_key_id (λ k. out.root_key_id == k))

unfoldable pub retrieved_outputs : List OutputData → Bool → Option ℕ → Option ℕ → List OutputData
unfolding is_retrieved
retrieved_outputs outputs show_spent tx_id parent_key_id =
    sort_by by_n_child (filter (is_retrieved show_spent tx_id parent_key_id) outputs)

-- `unwrap` of a result
abbrev unwrap {ℓ} : {A : Type ℓ} → Result A → Result A
unwrap (err e) = panic
unwrap r = r

-- The stored commitment, or the one that the keychain makes.
abbrev pub commit_of : (ℕ → ℕ → Result ℕ) → Option ℕ → ℕ → ℕ → Result ℕ
commit_of commit (some c) value key_id = ok c
commit_of commit none value key_id = unwrap (commit value key_id)

unfoldable pub with_commits : (ℕ → ℕ → Result ℕ) → List OutputData → Result (List (OutputData × ℕ))
with_commits commit [] = ok []
with_commits commit (o ∷ os) = do
  c ← commit_of commit o.commit o.value o.key_id
  rest ← with_commits commit os
  ok ((o, c) ∷ rest)

-- What `retrieve_txs` lets through, without query arguments.
unfoldable pub is_listed : Option ℕ → Option ℕ → Option ℕ → Bool → TxLogEntry → Bool
is_listed tx_id tx_slate_id parent_key_id outstanding_only tx =
    holds parent_key_id (λ k. tx.parent_key_id == k)
    && (holds tx_id (λ i. tx.id == i)
        && (holds tx_slate_id (λ t. opt_eq tx.tx_slate_id (some t))
            && (if outstanding_only
                then (not tx.confirmed)
                  && (is_type tx.tx_type tx_received
                      || (is_type tx.tx_type tx_sent || is_type tx.tx_type tx_reverted))
                else true)))

abbrev pub by_creation : TxLogEntry → TxLogEntry → Bool
by_creation a b = leb a.creation_ts b.creation_ts

unfoldable pub listed_txs :
    List TxLogEntry → Option ℕ → Option ℕ → Option ℕ → Bool → List TxLogEntry
unfolding is_listed
listed_txs logs tx_id tx_slate_id parent_key_id outstanding_only =
    sort_by by_creation (filter (is_listed tx_id tx_slate_id parent_key_id outstanding_only) logs)

-- What the map of `map_wallet_outputs` holds of an output, under its commitment.
pub record Tracked : Type 0 where
  pub commitment : ℕ
  pub key_id : ℕ
  pub mmr_index : Option ℕ
  pub tx_log_entry : Option ℕ
  pub was_unspent : Bool

-- `HashMap::insert`: a later output with the same commitment takes the place of an earlier one.
unfoldable pub track : Tracked → List Tracked → List Tracked
track t [] = t ∷ []
track t (u ∷ us) =
    let rest = track t us in if u.commitment == t.commitment then t ∷ us else u ∷ rest

abbrev track_all : List (OutputData × ℕ) → List Tracked → List Tracked
track_all [] us = us
track_all ((o, c) ∷ os) us = track_all os (
    track
      (record {
        commitment = c;
        key_id = o.key_id;
        mmr_index = o.mmr_index;
        tx_log_entry = o.tx_log_entry;
        was_unspent = is_status o.status unspent;
      })
      us)

-- An output without an entry, or with one of the outstanding entries.
abbrev is_outstanding : List TxLogEntry → OutputData → Bool
is_outstanding tx_entries o = holds o.tx_log_entry (λ t. any (λ te. te.id == t) tx_entries)

unfoldable pub map_wallet_outputs : (env : Env) → Wallet env → ℕ → Bool → Result (List Tracked)
unfolding listed_txs with_commits track
map_wallet_outputs env w parent_key_id update_all = do
  env.unlocked
  let unspents =
      filter (λ x. (x.root_key_id == parent_key_id) && not (is_status x.status spent)) (iter env w)
  let tx_entries = listed_txs (tx_log_iter env w) none none (some parent_key_id) true
  let chosen = if update_all then unspents else filter (is_outstanding tx_entries) unspents
  outs ← with_commits env.commit chosen
  ok (track_all outs [])
