-- ===== src/Exchange/Misfiled.antt =====
-- The log entry that `update_tx_slate_state` of libwallet/src/api_impl/types.rs writes.
use grin_wallet.Prelude.{ℕ, ◌≡◌, ◌≢◌, refl, ◌∙◌, ap, some, find?, opt_eq, if◌then◌else◌}
use grin_wallet.Prelude.Result.{ok}
use grin_wallet.Bytes.{Bytes, bytes_eq, bytes_eq_refl}
use grin_wallet.TxLog.{TxLogEntry}
use grin_wallet.Libtx.{Libtx}
use grin_wallet.Slates.{Slate}
use grin_wallet.Backend.{Env, Wallet, to_key_u64, id_bytes, tx_log_iter, save_tx_log_entry}
use grin_wallet.Exchange.{Host, save_found, update_tx_slate_state}

module _ (env : Env) (lib : Libtx) (host : Host lib) (parent_key_id : ℕ) (s : Slate lib) where
  abbrev with_state : TxLogEntry → TxLogEntry
  with_state t = record t { tx_slate_state = some s.state }

  saved :
      (w : Wallet env) (t : TxLogEntry)
      → env.unlocked ≡ ok tt
      → save_found env lib host parent_key_id s (some t) w ≡ (
        ok tt,
        record w {
          tx_logs = env.put w.tx_logs (to_key_u64 (id_bytes parent_key_id) t.id) (with_state t);
        },
      )
  unfolding save_tx_log_entry
  saved w t u = rw u refl

  -- In an unlocked wallet, the first entry of the slate, of whatever account, is written under its
  -- own number in the account of the call, whatever was held there, with the state of the slate and
  -- all else as it was. All other keys hold what they held. Where the first entry of the slate is of
  -- another account, an entry of that other account then stands under a key of this one.
  pub update_tx_slate_state_overwrites :
      (w : Wallet env) (t : TxLogEntry)
      → env.unlocked ≡ ok tt
      → find? (λ tx. opt_eq tx.tx_slate_id (some s.id)) (tx_log_iter env w) ≡ some t
      → ((update_tx_slate_state env lib host parent_key_id s w).0 ≡ ok tt)
        × ((j : Bytes)
            → env.get (update_tx_slate_state env lib host parent_key_id s w).1.tx_logs j ≡ (
                if bytes_eq (to_key_u64 (id_bytes parent_key_id) t.id) j
                then some (record t { tx_slate_state = some s.state })
                else env.get w.tx_logs j))
        × (t.parent_key_id ≢ parent_key_id
            → (v : TxLogEntry) × (env.get
                  (update_tx_slate_state env lib host parent_key_id s w).1.tx_logs
                  (to_key_u64 (id_bytes parent_key_id) t.id)
                ≡ some v)
              × (v.parent_key_id ≢ parent_key_id))
  unfolding update_tx_slate_state
  update_tx_slate_state_overwrites w t l f =
      let key = to_key_u64 (id_bytes parent_key_id) t.id in
      let g = ap (λ o. save_found env lib host parent_key_id s o w) f ∙ saved w t l in
      (
        ap (λ r. r.0) g,
        λ j.
            ap (λ r. env.get r.1.tx_logs j) g
            ∙ env.get-put w.tx_logs (to_key_u64 (id_bytes parent_key_id) t.id) j (with_state t),
        λ other. (
          with_state t,
          ap (λ r. env.get r.1.tx_logs key) g
              ∙ env.get-put w.tx_logs key key (with_state t)
              ∙ rw (bytes_eq_refl key) refl,
          other,
        ),
      )
