-- ===== src/Exchange/Finalize/Forgotten.antt =====
-- The private context of a transaction that is finalized (`finalize_tx` of
-- libwallet/src/api_impl/foreign.rs).
use mathlib.Core.Path.{subst}
use grin_wallet.Prelude.{ℕ, ◌≡◌, refl, sym, ◌∙◌, Bool, true, false, Option, none, some}
use grin_wallet.Prelude.Exec.{lift, gets}
use grin_wallet.Prelude.Triple.{Triple, Triple->>=}
use grin_wallet.Bytes.{Bytes, be_bytes, bytes_eq_refl}
use grin_wallet.TxLog.{
  TxLogEntry, SlateState, unknown, standard1, standard2, standard3, invoice1, invoice2, invoice3,
}
use grin_wallet.Context.{Context}
use grin_wallet.Libtx.{Libtx}
use grin_wallet.Slates.{Slate, adjust_offset, tx_or_err}
use grin_wallet.Slates.Identity.{adjust_offset-id}
use grin_wallet.Backend.{Env, Wallet, save_tx_log_entry, to_key_u64}
use grin_wallet.Backend.Contexts.{get_private_context, delete_private_context}
use grin_wallet.Backend.Triples.{Triple-in_batch}
use grin_wallet.Exchange.{Host, id_of, check_ttl, save_found, update_tx_slate_state}
use grin_wallet.Exchange.Complete.{
  repopulate_tx, complete_tx, update_stored_tx, verify_slate_payment_proof,
}
use grin_wallet.Exchange.Finalize.Identity.{Any, Of, repopulate_tx-Of, complete_tx-Of}
use grin_wallet.Exchange.Finalize.{
  forget, finished, finalize_invoice, finalize_from, finalize_standard, finalize_in, finalize_tx,
  initiator_keys, post_if, late_lock,
}

module _ (env : Env) (lib : Libtx) (host : Host lib) (id : ℕ) where
  abbrev context_key : Bytes
  context_key = to_key_u64 (be_bytes 16 id) 0

  -- The wallet holds no private context of the slate.
  abbrev pub IsForgotten : Wallet env → Type 0
  IsForgotten w = env.get w.contexts context_key ≡ none

  forget-IsForgotten :
      (s : Slate lib)
      → s.id ≡ id
      → Triple (Any env lib host id) (forget env lib host s) (λ _ w. IsForgotten w)
  unfolding delete_private_context
  forget-IsForgotten s i =
      Triple-in_batch env (Any env lib host id) (delete_private_context env (id_of env lib host s))
        (λ _ w. IsForgotten w)
        (λ w p u e.
          subst
            (λ j. env.get (env.delete w.contexts (to_key_u64 (be_bytes 16 j) 0)) context_key ≡ none)
            (sym i)
            (env.get-delete w.contexts context_key context_key
              ∙ rw (bytes_eq_refl context_key) refl))

  save_found-IsForgotten :
      (parent_key_id : ℕ) (s : Slate lib) (o : Option TxLogEntry)
      → Triple IsForgotten (save_found env lib host parent_key_id s o) (λ _ w. IsForgotten w)
  unfolding save_tx_log_entry
  save_found-IsForgotten parent_key_id s none = λ w p u e. p
  save_found-IsForgotten parent_key_id s (some t) =
      Triple-in_batch env IsForgotten (save_tx_log_entry env _ parent_key_id) (λ _ w. IsForgotten w)
        (λ w p u e. p)

  update_tx_slate_state-IsForgotten :
      (parent_key_id : ℕ) (s : Slate lib)
      → Triple IsForgotten
          (update_tx_slate_state env lib host parent_key_id s)
          (λ _ w. IsForgotten w)
  unfolding update_tx_slate_state
  update_tx_slate_state-IsForgotten parent_key_id s w p =
      save_found-IsForgotten parent_key_id s _ w p

  -- What follows the completion of the transaction.
  finished-IsForgotten :
      (state : SlateState) (s : Slate lib) (parent_key_id : ℕ)
      → Triple IsForgotten (finished env lib host state s parent_key_id) (λ _ w. IsForgotten w)
  unfolding finished
  finished-IsForgotten state s parent_key_id =
      let s' = record s { state = state; amount = 0 } in
      Triple->>= IsForgotten (λ _ w. IsForgotten w) (λ _ w. IsForgotten w)
        (update_tx_slate_state env lib host parent_key_id s') _
        (update_tx_slate_state-IsForgotten parent_key_id s') (λ u w p r e. p)

  finalize_invoice-IsForgotten :
      (s : Slate lib) (context : Context)
      → s.id ≡ id
      → Triple
          (Any env lib host id)
          (finalize_invoice env lib host s context)
          (λ _ w. IsForgotten w)
  unfolding finalize_invoice
  finalize_invoice-IsForgotten s context i =
      let R = λ (_ : Slate lib) (w : Wallet env). IsForgotten w in
      Triple->>= (Any env lib host id) (λ _ w. Any env lib host id w) R (lift env.unlocked) _
        (λ w p u e. p)
        (λ u.
          Triple->>= (Any env lib host id) (Of env lib host id) R
            (lift (adjust_offset lib s context)) _
            (λ w p m e. adjust_offset-id lib s m context e ∙ i)
            (λ moved w p.
              Triple->>= (Any env lib host id) (Of env lib host id) R
                (repopulate_tx env lib host moved (initiator_keys env lib host context) false) _
                (repopulate_tx-Of env lib host id moved (initiator_keys env lib host context) false
                  p)
                (λ whole w q.
                  Triple->>= (Any env lib host id) (Of env lib host id) R
                    (complete_tx env lib host whole context) _
                    (complete_tx-Of env lib host id whole context q)
                    (λ done w d.
                      Triple->>= (Any env lib host id) (λ _ w. Any env lib host id w) R
                        (update_stored_tx env lib host context done true) _ (λ w p u e. tt)
                        (λ u.
                          Triple->>= (Any env lib host id) (λ _ w. IsForgotten w) R
                            (forget env lib host done) _ (forget-IsForgotten done d)
                            (λ u.
                              Triple->>= IsForgotten (λ _ w. IsForgotten w) R
                                (gets (λ w. w.parent_key_id)) (finished env lib host invoice3 done)
                                (λ w p k e. p) (finished-IsForgotten invoice3 done)))
                        w tt)
                    w tt)
                w tt))

  finalize_from-IsForgotten :
      (s : Slate lib) (context : Context) (parent_key_id : ℕ)
      → s.id ≡ id
      → Triple
          (Any env lib host id)
          (finalize_from env lib host s context parent_key_id)
          (λ _ w. IsForgotten w)
  unfolding finalize_from
  finalize_from-IsForgotten s context parent_key_id i =
      let R = λ (_ : Slate lib) (w : Wallet env). IsForgotten w in
      Triple->>= (Any env lib host id) (λ _ w. Any env lib host id w) R
        (late_lock env lib host s parent_key_id context context.late_lock_args) _ (λ w p u e. tt)
        (λ context'.
          Triple->>= (Any env lib host id) (Of env lib host id) R
            (lift (adjust_offset lib s context')) _
            (λ w p m e. adjust_offset-id lib s m context' e ∙ i)
            (λ moved w p.
              Triple->>= (Any env lib host id) (Of env lib host id) R
                (repopulate_tx env lib host moved context' true) _
                (repopulate_tx-Of env lib host id moved context' true p)
                (λ whole w q.
                  Triple->>= (Any env lib host id) (Of env lib host id) R
                    (complete_tx env lib host whole context') _
                    (complete_tx-Of env lib host id whole context' q)
                    (λ done w d.
                      Triple->>= (Any env lib host id) (λ _ w. Any env lib host id w) R
                        (verify_slate_payment_proof env lib host parent_key_id context' done) _
                        (λ w p u e. tt)
                        (λ u.
                          Triple->>= (Any env lib host id) (λ _ w. Any env lib host id w) R
                            (update_stored_tx env lib host context' done false) _ (λ w p u e. tt)
                            (λ u.
                              Triple->>= (Any env lib host id) (λ _ w. IsForgotten w) R
                                (forget env lib host done) _ (forget-IsForgotten done d)
                                (λ u. finished-IsForgotten standard3 done parent_key_id)))
                        w tt)
                    w tt)
                w tt))

  finalize_standard-IsForgotten :
      (s : Slate lib) (context : Context)
      → s.id ≡ id
      → Triple
          (Any env lib host id)
          (finalize_standard env lib host s context)
          (λ _ w. IsForgotten w)
  unfolding finalize_standard
  finalize_standard-IsForgotten s context i =
      let R = λ (_ : Slate lib) (w : Wallet env). IsForgotten w in
      Triple->>= (Any env lib host id) (λ _ w. Any env lib host id w) R (lift env.unlocked) _
        (λ w p u e. p)
        (λ u.
          Triple->>= (Any env lib host id) (λ _ w. Any env lib host id w) R
            (gets (λ w. w.parent_key_id)) (finalize_from env lib host s context) (λ w p u e. p)
            (λ parent_key_id. finalize_from-IsForgotten s context parent_key_id i))

  finalize_in-IsForgotten :
      (state : SlateState) (s : Slate lib) (context : Context)
      → s.id ≡ id
      → Triple
          (Any env lib host id)
          (finalize_in env lib host state s context)
          (λ _ w. IsForgotten w)
  finalize_in-IsForgotten invoice2 s context i = finalize_invoice-IsForgotten s context i
  finalize_in-IsForgotten standard2 s context i = finalize_standard-IsForgotten s context i
  finalize_in-IsForgotten unknown s context i = λ w p r e. cc
  finalize_in-IsForgotten standard1 s context i = λ w p r e. cc
  finalize_in-IsForgotten standard3 s context i = λ w p r e. cc
  finalize_in-IsForgotten invoice1 s context i = λ w p r e. cc
  finalize_in-IsForgotten invoice3 s context i = λ w p r e. cc

  post_if_still :
      (b : Bool) (s : Slate lib)
      → Triple IsForgotten (post_if env lib host b s) (λ _ w. IsForgotten w)
  post_if_still false s = λ w p u e. p
  post_if_still true s =
      Triple->>= IsForgotten (λ _ w. IsForgotten w) (λ _ w. IsForgotten w) (lift (tx_or_err lib s))
        _ (λ w p u e. p) (λ t w p u e. p)

  pub finalize_tx-IsForgotten :
      (s : Slate lib) (post_automatically : Bool)
      → s.id ≡ id
      → Triple
          (Any env lib host id)
          (finalize_tx env lib host s post_automatically)
          (λ _ w. IsForgotten w)
  unfolding finalize_tx
  finalize_tx-IsForgotten s post_automatically i =
      let R = λ (_ : Slate lib) (w : Wallet env). IsForgotten w in
      Triple->>= (Any env lib host id) (λ _ w. Any env lib host id w) R
        (get_private_context env (id_of env lib host s)) _ (λ w p c e. tt)
        (λ context.
          Triple->>= (Any env lib host id) (λ _ w. Any env lib host id w) R
            (check_ttl env lib host s) _ (λ w p u e. tt)
            (λ u.
              Triple->>= (Any env lib host id) (λ _ w. IsForgotten w) R
                (finalize_in env lib host s.state s context) _
                (finalize_in-IsForgotten s.state s context i)
                (λ sl.
                  Triple->>= IsForgotten (λ _ w. IsForgotten w) R
                    (post_if env lib host post_automatically sl) _
                    (post_if_still post_automatically sl) (λ u w p r e. p))))
