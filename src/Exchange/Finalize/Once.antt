-- ===== src/Exchange/Finalize/Once.antt =====
-- A transaction is finalized once (`finalize_tx` of libwallet/src/api_impl/foreign.rs).
use grin_wallet.Prelude.{◌≡◌, refl, ◌∙◌, ap, Bool, none, arith}
use grin_wallet.Prelude.Result.{ok, err, not_found}
use grin_wallet.Prelude.Exec.{pure, continue, ◌>>=◌, ◌>>◌, exec-eq-ok}
use grin_wallet.Bytes.{Bytes, be_bytes}
use grin_wallet.Context.{Context}
use grin_wallet.Libtx.{Libtx}
use grin_wallet.Slates.{Slate}
use grin_wallet.Backend.{Env, Wallet, to_key_u64}
use grin_wallet.Backend.Contexts.{get_private_context, private_ctx_xor_keys}
use grin_wallet.Exchange.{Host, id_of, check_ttl}
use grin_wallet.Exchange.Finalize.{finalize_tx, finalize_in, post_if}
use grin_wallet.Exchange.Finalize.Forgotten.{IsForgotten, finalize_tx-IsForgotten}

module _ (env : Env) where
  -- A context that was there and is no more is not found.
  get_private_context_again :
      (slate_id : Bytes) (w w' : Wallet env) (c : Context)
      → (get_private_context env slate_id w).0 ≡ ok c
      → env.get w'.contexts (to_key_u64 slate_id 0) ≡ none
      → get_private_context env slate_id w' ≡ (err not_found, w')
  unfolding get_private_context private_ctx_xor_keys
  get_private_context_again slate_id w w' c e n = ground arith

  module _ (lib : Libtx) (host : Host lib) where
    -- A transaction is finalized once: where it is finalized, a slate of the same identifier is not
    -- found afterwards, in whatever state, and the wallet stays as it is.
    pub finalize_tx_once :
        (s r : Slate lib) (post again : Bool) (w : Wallet env) (sl : Slate lib)
        → r.id ≡ s.id
        → (finalize_tx env lib host s post w).0 ≡ ok sl
        → finalize_tx env lib host r again (finalize_tx env lib host s post w).1
          ≡ (err not_found, (finalize_tx env lib host s post w).1)
    unfolding finalize_tx
    finalize_tx_once s r post again w sl i e =
        let (c, e1, e2, e3) = exec-eq-ok (get_private_context env (id_of env lib host s)) _ w e in
        let w' = (finalize_tx env lib host s post w).1 in
        let gone : IsForgotten env lib host s.id w' =
          finalize_tx-IsForgotten env lib host s.id s post refl w tt sl e in
        let lost = get_private_context_again (be_bytes 16 s.id) w w' c e1 gone in
        let missing : get_private_context env (id_of env lib host r) w' ≡ (err not_found, w') =
          ap (λ j. get_private_context env (be_bytes 16 j) w') i ∙ lost in
        ap
          (λ t.
            continue t.0
              (λ context.
                check_ttl env lib host r
                >> (finalize_in env lib host r.state r context >>= λ sl.
                    post_if env lib host again sl >> pure sl))
              t.1)
          missing
