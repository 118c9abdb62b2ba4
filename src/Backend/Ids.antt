-- ===== src/Backend/Ids.antt =====
-- The identifiers of log entries (`next_tx_log_id` of libwallet/src/backend.rs).
use grin_wallet.Prelude.{
  ℕ, ◌+◌, ◌^◌, ◌%◌, ◌<◌, ◌≡◌, ◌≢◌, refl, ap, ◌∙◌, inl, inr, Bool-cases, none, some,
}
use grin_wallet.Prelude.Result.{ok}
use grin_wallet.Bytes.{bytes_eq, bytes_eq_refl, bytes_eq→eq}
use grin_wallet.Backend.{Env, Wallet, next_tx_log_id, id_bytes, or_zero, output_key}
use grin_wallet.Backend.Keys.{output_key_injective}

module _ (env : Env) where
  -- The identifier that the next entry of an account will have.
  abbrev pub next_id : ℕ → Wallet env → ℕ
  next_id parent_key_id w = or_zero env (env.get w.tx_log_ids (id_bytes parent_key_id))

  own_written :
      (p v : ℕ) (w : Wallet env)
      → env.get (env.put w.tx_log_ids (id_bytes p) v) (id_bytes p) ≡ some v
  own_written p v w =
      env.get-put w.tx_log_ids (id_bytes p) (id_bytes p) v ∙ rw (bytes_eq_refl (id_bytes p)) refl

  other_kept :
      (p q v : ℕ) (w : Wallet env)
      → p < 256 ^ 17
      → q < 256 ^ 17
      → p ≢ q
      → env.get (env.put w.tx_log_ids (id_bytes p) v) (id_bytes q)
        ≡ env.get w.tx_log_ids (id_bytes q)
  unfolding output_key
  other_kept p q v w hp hq n = elim (Bool-cases (bytes_eq (id_bytes p) (id_bytes q))) [
    | inl e ↦ absurd (
        n
          (output_key_injective p q none none hp hq tt tt
            (bytes_eq→eq (id_bytes p) (id_bytes q) e)).0)
    | inr e ↦ env.get-put w.tx_log_ids (id_bytes p) (id_bytes q) v ∙ rw e refl
  ]

  -- A new entry gets the account's next identifier; afterwards the account's next identifier is one
  -- more, in 32 bits, and that of every other account is what it was.
  pub next_tx_log_id-next_id :
      (p q : ℕ) (w : Wallet env)
      → p < 256 ^ 17
      → q < 256 ^ 17
      → p ≢ q
      → ((next_tx_log_id env p w).0 ≡ ok (next_id p w))
        × (next_id p (next_tx_log_id env p w).1 ≡ (next_id p w + 1) % 2 ^ 32)
        × (next_id q (next_tx_log_id env p w).1 ≡ next_id q w)
  unfolding next_tx_log_id
  next_tx_log_id-next_id p q w hp hq n =
      let v = (next_id p w + 1) % 2 ^ 32 in
      (refl, ap (or_zero env) (own_written p v w), ap (or_zero env) (other_kept p q v w hp hq n))
