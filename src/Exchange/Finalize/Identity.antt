-- ===== src/Exchange/Finalize/Identity.antt =====
-- The completion of a slate keeps its identifier (`repopulate_tx` of
-- libwallet/src/internal/selection.rs and `complete_tx` of libwallet/src/internal/tx.rs).
use grin_wallet.Prelude.{ℕ, ◌≡◌, ◌∙◌, Bool, Option, none, ◌++◌, arith}
use grin_wallet.Prelude.Result.{ok}
use grin_wallet.Prelude.Exec.{lift, gets, ◌>>=◌}
use grin_wallet.Prelude.Triple.{Triple, Triple->>=}
use grin_wallet.Context.{Context}
use grin_wallet.Libtx.{Libtx}
use grin_wallet.Slates.{Slate, add_participant_info, add_transaction_elements}
use grin_wallet.Slates.Identity.{
  add_participant_info-id, add_transaction_elements-id, fill_round_2-id, finalize-id,
}
use grin_wallet.Slates.Signing.{fill_round_2, finalize}
use grin_wallet.Backend.{Env, Wallet}
use grin_wallet.Backend.Triples.{Triple-result}
use grin_wallet.Exchange.{Host}
use grin_wallet.Exchange.Complete.{
  repopulate_tx, restore_offset, complete_tx, restored_fee, signing_keys, input_parts, output_parts,
}

module _ (env : Env) (lib : Libtx) (host : Host lib) (id : ℕ) where
  abbrev pub Any : Wallet env → Type 0
  Any w = Unit {0}

  abbrev pub Of : Slate lib → Wallet env → Type 0
  Of s w = s.id ≡ id

  restored_fee-id :
      (b : Bool) (f : Option ℕ) (s r : Slate lib)
      → restored_fee env lib host b f s ≡ ok r
      → r.id ≡ s.id
  restored_fee-id b f s r e = ground arith

  restore_offset-id : (s r : Slate lib) → restore_offset env lib host s ≡ ok r → r.id ≡ s.id
  unfolding restore_offset
  restore_offset-id s r e = ground arith

  pub repopulate_tx-Of :
      (s : Slate lib) (context : Context) (update_fee : Bool)
      → s.id ≡ id
      → Triple Any (repopulate_tx env lib host s context update_fee) Of
  unfolding repopulate_tx
  repopulate_tx-Of s context update_fee i =
      let s0 = record s { amount = context.amount } in
      Triple->>= Any Of Of (lift (restored_fee env lib host update_fee context.fee s0)) _
        (λ w p r e. restored_fee-id update_fee context.fee s0 r e ∙ i)
        (λ priced.
          Triple->>= (Of priced) (λ _ w. Of priced w) Of (lift env.unlocked) _ (λ w p u e. p)
            (λ u.
              Triple->>= (Of priced) Of Of (lift (add_participant_info lib priced context none)) _
                (λ w p r e. add_participant_info-id lib priced r context none e ∙ p)
                (λ signed.
                  Triple->>= (Of signed) (λ _ w. Of signed w) Of
                    (gets (λ w.
                      input_parts env lib host w context.input_ids
                      ++ output_parts env lib host w context.output_ids))
                    (λ parts. lift (add_transaction_elements lib signed parts) >>= λ b.
                      lift (restore_offset env lib host b.0))
                    (λ w p u e. p)
                    (λ parts.
                      Triple->>= (Of signed) (λ b w. Of b.0 w) Of
                        (lift (add_transaction_elements lib signed parts))
                        (λ b. lift (restore_offset env lib host b.0))
                        (λ w p b e. add_transaction_elements-id lib signed parts b e ∙ p)
                        (λ built.
                          Triple-result env (Of built.0) (restore_offset env lib host built.0) Of
                            (λ w p r e. restore_offset-id built.0 r e ∙ p))))))

  pub complete_tx-Of :
      (s : Slate lib) (context : Context)
      → s.id ≡ id
      → Triple Any (complete_tx env lib host s context) Of
  unfolding complete_tx
  complete_tx-Of s context i =
      Triple->>= Any (λ _ w. Any w) Of (lift env.unlocked) _ (λ w p u e. p)
        (λ u.
          Triple->>= Any Of Of
            (lift (
              fill_round_2 lib s (signing_keys env lib host context).0
                (signing_keys env lib host context).1))
            _ (λ w p r e. fill_round_2-id lib s r _ _ e ∙ i)
            (λ signed.
              Triple->>= (Of signed) (λ _ w. Of signed w) Of (lift env.unlocked) _ (λ w p u e. p)
                (λ u.
                  Triple-result env (Of signed) (finalize lib env.core signed) Of
                    (λ w p r e. finalize-id lib env.core signed r e ∙ p))))
