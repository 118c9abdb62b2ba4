-- ===== src/Backend/Contexts.antt =====
-- The private contexts of transactions in the database (libwallet/src/backend.rs): their secrets are
-- masked by XOR with two digests.
pub mod Masked
use grin_wallet.Prelude.{
  ℕ, zero, suc, ◌+◌, ◌*◌, ◌/◌, ◌%◌, List, [], ◌∷◌, ◌++◌, take, leb, if◌then◌else◌,
}
use grin_wallet.Prelude.Result.{Result, ok, err, not_found, backend, ok_or}
use grin_wallet.Prelude.Exec.{pure, lift, gets, ◌>>=◌, ◌>>◌}
use grin_wallet.Bytes.{Bytes}
use grin_wallet.Context.{Context}
use grin_wallet.Backend.{Env, Wallet, Op, to_key_u64}

-- `^` on numbers of `k` bits
unfoldable pub xor_bits : ℕ → ℕ → ℕ → ℕ
xor_bits zero a b = 0
xor_bits (suc k) a b = (a % 2 + b % 2) % 2 + 2 * xor_bits k (a / 2) (b / 2)

-- The loop over the bytes of a key.
unfoldable pub xor_bytes : Bytes → Bytes → Bytes
unfolding xor_bits
xor_bytes [] bs = []
xor_bytes (a ∷ as') [] = a ∷ as'
xor_bytes (a ∷ as') (b ∷ bs) = xor_bits 8 a b ∷ xor_bytes as' bs

-- `b"blind"` and `b"nonce"`
abbrev pub blind : Bytes
blind = 98 ∷ 108 ∷ 105 ∷ 110 ∷ 100 ∷ []

abbrev pub nonce : Bytes
nonce = 110 ∷ 111 ∷ 110 ∷ 99 ∷ 101 ∷ []

abbrev pub mask_context : Bytes × Bytes → Context → Context
mask_context keys ctx = record ctx {
  sec_key = xor_bytes ctx.sec_key keys.0;
  sec_nonce = xor_bytes ctx.sec_nonce keys.1;
}

-- `MAX_CONTEXT_SIZE`
abbrev pub max_context_size : ℕ
max_context_size = 4 * 1024 * 1024

module _ (env : Env) where
  unfoldable pub private_ctx_xor_keys : Bytes → Op env (Bytes × Bytes)
  private_ctx_xor_keys slate_id = do
    root_key ← lift env.root_key
    pure (
      take 32 (env.blake2b (root_key ++ (slate_id ++ blind))),
      take 32 (env.blake2b (root_key ++ (slate_id ++ nonce))),
    )

  -- `Context::write` refuses what is too large. What is written is then never too large to be read.
  abbrev put_context : Bytes → Context → Op env (Unit {0})
  put_context slate_id ctx w =
      if leb (env.context_len ctx) max_context_size
      then (ok tt, record w { contexts = env.put w.contexts (to_key_u64 slate_id 0) ctx })
      else (err backend, w)

  unfoldable pub save_private_context : Bytes → Context → Op env (Unit {0})
  unfolding xor_bytes private_ctx_xor_keys
  save_private_context slate_id ctx = do
    keys ← private_ctx_xor_keys slate_id
    put_context slate_id (mask_context keys ctx)

  unfoldable pub get_private_context : Bytes → Op env Context
  unfolding xor_bytes private_ctx_xor_keys
  get_private_context slate_id = do
    lift env.unlocked
    keys ← private_ctx_xor_keys slate_id
    stored ← gets (λ w. env.get w.contexts (to_key_u64 slate_id 0))
    ctx ← lift (ok_or stored not_found)
    pure (mask_context keys ctx)

  unfoldable pub delete_private_context : Bytes → Op env (Unit {0})
  delete_private_context slate_id w =
      (ok tt, record w { contexts = env.delete w.contexts (to_key_u64 slate_id 0) })
