-- ===== src/Backend/Contexts/Masked.antt =====
-- A private context comes back from the database (libwallet/src/backend.rs), and what of it is stored.
use native.Mathlib.Nat.{pow-suc}
use grin_wallet.Prelude.{
  ℕ, zero, suc, ◌+◌, ◌*◌, ◌/◌, ◌%◌, ◌^◌, ◌<◌, ◌≤◌, leb, ◌≡◌, refl, ap, ◌∙◌, Option, true, some, [],
  ◌∷◌, ◌++◌, take, arith,
}
use grin_wallet.Prelude.Result.{ok}
use grin_wallet.Bytes.{Bytes, IsBytes, bytes_eq_refl}
use grin_wallet.Context.{Context, with_excess}
use grin_wallet.Backend.{Env, Wallet, to_key_u64}
use grin_wallet.Backend.Contexts.{
  xor_bits, xor_bytes, max_context_size, blind, nonce, mask_context, private_ctx_xor_keys,
  save_private_context, get_private_context,
}

xor_bits_twice : (k a b : ℕ) → a < 2 ^ k → xor_bits k (xor_bits k a b) b ≡ a
unfolding xor_bits
xor_bits_twice zero a b h = omega arith
xor_bits_twice (suc k) a b h =
    let p : ℕ = (a % 2 + b % 2) % 2 in
    let r : ℕ = xor_bits k (a / 2) (b / 2) in
    let half : (p + 2 * r) / 2 ≡ r = omega arith in
    let small : a / 2 < 2 ^ k = omega (arith, pow-suc 2 k) in
    omega (arith, ap (λ t. xor_bits k t (b / 2)) half ∙ xor_bits_twice k (a / 2) (b / 2) small)

xor_bytes_twice : (bs keys : Bytes) → IsBytes bs → xor_bytes (xor_bytes bs keys) keys ≡ bs
unfolding xor_bytes
xor_bytes_twice [] keys h = refl
xor_bytes_twice (b ∷ bs) [] h = refl
xor_bytes_twice (b ∷ bs) (k ∷ keys) (p, h) =
    ap (λ c. c ∷ xor_bytes (xor_bytes bs keys) keys) (xor_bits_twice 8 b k p)
    ∙ ap (λ l. b ∷ l) (xor_bytes_twice bs keys h)

mask_context_twice :
    (keys : Bytes × Bytes) (ctx : Context)
    → IsBytes ctx.sec_key
    → IsBytes ctx.sec_nonce
    → mask_context keys (mask_context keys ctx) ≡ ctx
mask_context_twice keys ctx hk hn =
    ap
      (λ k. record ctx {
        sec_key = k;
        sec_nonce = xor_bytes (xor_bytes ctx.sec_nonce keys.1) keys.1;
      })
      (xor_bytes_twice ctx.sec_key keys.0 hk)
    ∙ ap (λ n. record ctx { sec_nonce = n }) (xor_bytes_twice ctx.sec_nonce keys.1 hn)

module _ (env : Env) (slate_id : Bytes) (ctx : Context) (w : Wallet env) where
  abbrev stored_at : Wallet env → Option Context
  stored_at v = env.get v.contexts (to_key_u64 slate_id 0)

  abbrev keys_of : Bytes → Bytes × Bytes
  keys_of root = (
    take 32 (env.blake2b (root ++ (slate_id ++ blind))),
    take 32 (env.blake2b (root ++ (slate_id ++ nonce))),
  )

  fits :
      (root : Bytes)
      → env.context_len (mask_context (keys_of root) ctx) ≤ max_context_size
      → leb (env.context_len (mask_context (keys_of root) ctx)) max_context_size ≡ true
  fits root small = ground arith

  stored :
      (root : Bytes)
      → env.root_key ≡ ok root
      → env.context_len (mask_context (keys_of root) ctx) ≤ max_context_size
      → stored_at (save_private_context env slate_id ctx w).1
        ≡ some (mask_context (keys_of root) ctx)
  unfolding private_ctx_xor_keys save_private_context
  stored root r small =
      let key = to_key_u64 slate_id 0 in
      rw (r, fits root small)
        (env.get-put w.contexts key key (mask_context (keys_of root) ctx)
          ∙ rw (bytes_eq_refl key) refl)

  saves :
      (root : Bytes)
      → env.root_key ≡ ok root
      → env.context_len (mask_context (keys_of root) ctx) ≤ max_context_size
      → (save_private_context env slate_id ctx w).0 ≡ ok tt
  unfolding private_ctx_xor_keys save_private_context
  saves root r small = rw (r, fits root small) refl

  -- A private context whose secrets are bytes is saved and comes back from the database as it was,
  -- for an open wallet whose root key can be derived, where the context with its masked secrets is
  -- no longer than the limit of 4 MiB.
  pub get_private_context-save_private_context :
      (root : Bytes)
      → env.root_key ≡ ok root
      → env.unlocked ≡ ok tt
      → IsBytes ctx.sec_key
      → IsBytes ctx.sec_nonce
      → env.context_len (mask_context (keys_of root) ctx) ≤ max_context_size
      → ((save_private_context env slate_id ctx w).0 ≡ ok tt)
        × ((get_private_context env slate_id (save_private_context env slate_id ctx w).1).0
            ≡ ok ctx)
  unfolding get_private_context
  get_private_context-save_private_context root r u hk hn small = (
    saves root r small,
    rw u (rw r (rw (stored root r small) (ap ok (mask_context_twice (keys_of root) ctx hk hn)))),
  )

-- The record that the database holds of a new context, once it is saved, has its secret key and its
-- nonce unmasked, in the fields of the initial ones; it is saved where its root key can be derived
-- and it is, with its masked secrets, no longer than the limit.
pub initial_secrets_stored :
    (env : Env) (slate_id sec_key sec_nonce root : Bytes) (parent_key_id : ℕ) (w : Wallet env)
    → env.root_key ≡ ok root
    → env.context_len (
        mask_context
          (keys_of env slate_id (with_excess sec_key sec_nonce parent_key_id) w root)
          (with_excess sec_key sec_nonce parent_key_id))
      ≤ max_context_size
    → (s : Context) × (env.get
          (save_private_context env slate_id
            (with_excess sec_key sec_nonce parent_key_id)
            w).1.contexts
          (to_key_u64 slate_id 0)
        ≡ some s)
      × (s.initial_sec_key ≡ sec_key)
      × (s.initial_sec_nonce ≡ sec_nonce)
unfolding with_excess
initial_secrets_stored env slate_id sec_key sec_nonce root parent_key_id w r small =
    let ctx = with_excess sec_key sec_nonce parent_key_id in
    (
      mask_context (keys_of env slate_id ctx w root) ctx,
      stored env slate_id ctx w root r small,
      refl,
      refl,
    )
