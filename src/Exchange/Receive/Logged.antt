-- ===== src/Exchange/Receive/Logged.antt =====
-- The log entries of a received slate (`receive_tx` of libwallet/src/api_impl/foreign.rs): all entries
-- of the slate are the one that the recipient writes.
use grin_wallet.Prelude.{
  ℕ, ◌≡◌, ◌≢◌, refl, sym, ◌∙◌, true, false, some, inl, inr, ◌⊎◌, Bool-cases, some_injective,
  if◌then◌else◌,
}
use mathlib.Core.Path.{subst}
use grin_wallet.Bytes.{Bytes, bytes_eq, bytes_eq_refl}
use grin_wallet.TxLog.{TxLogEntry, tx_received}
use grin_wallet.Backend.{Env, to_key_u64, id_bytes}

module _ (env : Env) (id parent_key_id : ℕ) where
  pub record IsReceived (n : ℕ) (t : TxLogEntry) : Type 0 where
    pub received : t.tx_type ≡ tx_received
    pub account : t.parent_key_id ≡ parent_key_id
    pub of_slate : t.tx_slate_id ≡ some id
    pub number : t.id ≡ n

  -- Every entry of the slate is of the recipient, under the number `n`.
  abbrev pub OnlyReceived : ℕ → env.Table TxLogEntry → Type 0
  OnlyReceived n logs =
      (j : Bytes) (t : TxLogEntry)
      → env.get logs j ≡ some t
      → t.tx_slate_id ≡ some id
      → IsReceived n t

  -- No entry is of the slate.
  abbrev pub IsNew : env.Table TxLogEntry → Type 0
  IsNew logs = (j : Bytes) (t : TxLogEntry) → env.get logs j ≡ some t → t.tx_slate_id ≢ some id

  pub record Logged (n : ℕ) (logs : env.Table TxLogEntry) : Type 0 where
    pub only : OnlyReceived n logs
    pub entry : TxLogEntry
    pub key : Bytes
    pub there : env.get logs key ≡ some entry
    pub mine : IsReceived n entry

  abbrev key_of : TxLogEntry → Bytes
  key_of t = to_key_u64 (id_bytes parent_key_id) t.id

  pub put-Logged :
      (n : ℕ) (logs : env.Table TxLogEntry) (t : TxLogEntry)
      → OnlyReceived n logs
      → IsReceived n t
      → Logged n (env.put logs (key_of t) t)
  put-Logged n logs t only mine = record {
    only = λ j u e s.
        kept j u s (Bool-cases (bytes_eq (key_of t) j)) (sym (env.get-put logs (key_of t) j t) ∙ e);
    entry = t;
    key = key_of t;
    there = env.get-put logs (key_of t) (key_of t) t ∙ rw (bytes_eq_refl (key_of t)) refl;
    mine = mine;
  }
    where
      kept :
          (j : Bytes) (u : TxLogEntry)
          → u.tx_slate_id ≡ some id
          → (bytes_eq (key_of t) j ≡ true) ⊎ (bytes_eq (key_of t) j ≡ false)
          → (if bytes_eq (key_of t) j then some t else env.get logs j) ≡ some u
          → IsReceived n u
      kept j u s (inl b) e = subst (λ v. IsReceived n v) (some_injective (rw b at e)) mine
      kept j u s (inr b) e = only j u (rw b at e) s

  pub IsNew-OnlyReceived : (n : ℕ) (logs : env.Table TxLogEntry) → IsNew logs → OnlyReceived n logs
  IsNew-OnlyReceived n logs h j t e s = absurd (h j t e s)
