-- ===== src/Exchange/Receive/Accounts.antt =====
-- Receiving a slate leaves the accounts alone (`receive_tx` of libwallet/src/api_impl/foreign.rs).
use grin_wallet.Prelude.{ℕ, ◌≡◌, refl, ◌∙◌, false, Option, none, some, [], ◌∷◌, arith}
use grin_wallet.Prelude.Exec.{lift, batched, ◌>>=◌}
use grin_wallet.Prelude.Keeps.{IsPreorder, Keeps, Keeps->>=, Keeps-batched}
use grin_wallet.TxLog.{TxLogEntry}
use grin_wallet.Libtx.{Libtx}
use grin_wallet.Slates.{
  Slate, PaymentInfo, add_transaction_elements, fill_round_1, calc_excess, adjust_offset,
  remove_other_sigdata,
}
use grin_wallet.Slates.Signing.{fill_round_2}
use grin_wallet.Selection.Change.{output}
use grin_wallet.TxLog.{standard2}
use grin_wallet.Backend.{
  Env, Wallet, Op, in_batch, next_child, save_child_index, calc_commit_for_cache, next_tx_log_id,
  save, save_tx_log_entry,
}
use grin_wallet.Exchange.{Host, update_tx_slate_state, save_found}
use grin_wallet.Exchange.Receive.{
  build_recipient_output, unwrap, written, add_output_to_slate, prove, receive_at,
}

module _ (env : Env) where
  abbrev pub SameAccounts : Wallet env → Wallet env → Type 0
  SameAccounts w w' = (w'.parent_key_id ≡ w.parent_key_id) × (w'.acct_paths ≡ w.acct_paths)

  preorder : IsPreorder SameAccounts
  preorder = record {
    reflexive = λ w. (refl, refl);
    transitive = λ u v w p q. (q.0 ∙ p.0, q.1 ∙ p.1);
  }

  then :
      {A B : Type 0} (m : Op env A) (f : A → Op env B)
      → Keeps SameAccounts m
      → ((a : A) → Keeps SameAccounts (f a))
      → Keeps SameAccounts (m >>= f)
  then m f = Keeps->>= SameAccounts preorder m f

  in_batch-Keeps :
      {A : Type 0} (m : Op env A) → Keeps SameAccounts m → Keeps SameAccounts (in_batch env m)
  in_batch-Keeps m k =
      Keeps->>= SameAccounts preorder (lift env.unlocked) (λ _. batched m) (λ w. (refl, refl))
        (λ _. Keeps-batched SameAccounts preorder m k)

  next_child-Keeps : Keeps SameAccounts (next_child env)
  unfolding next_child save_child_index
  next_child-Keeps w = (ground arith, ground arith)

  calc_commit-Keeps : (amount id : ℕ) → Keeps SameAccounts (calc_commit_for_cache env amount id)
  calc_commit-Keeps amount id w = (ground arith, ground arith)

  save_tx_log_entry-Keeps :
      (t : TxLogEntry) (parent_key_id : ℕ)
      → Keeps SameAccounts (save_tx_log_entry env t parent_key_id)
  unfolding save_tx_log_entry
  save_tx_log_entry-Keeps t parent_key_id w = (refl, refl)

  module _ (lib : Libtx) (host : Host lib) (parent_key_id : ℕ) where
    written-Keeps :
        (s : Slate lib) (amount height key_id : ℕ) (commit : Option ℕ)
        → Keeps SameAccounts (written env lib host s amount height parent_key_id key_id commit)
    unfolding written next_tx_log_id save save_tx_log_entry
    written-Keeps s amount height key_id commit w = (refl, refl)

    save_found-Keeps :
        (s : Slate lib) (o : Option TxLogEntry)
        → Keeps SameAccounts (save_found env lib host parent_key_id s o)
    save_found-Keeps s none = λ w. (refl, refl)
    save_found-Keeps s (some t) = in_batch-Keeps _ (save_tx_log_entry-Keeps _ parent_key_id)

    update-Keeps :
        (s : Slate lib) → Keeps SameAccounts (update_tx_slate_state env lib host parent_key_id s)
    unfolding update_tx_slate_state
    update-Keeps s w = save_found-Keeps s _ w

    prove-Keeps :
        (t : Slate lib) (excess : lib.Commitment) (p : Option (PaymentInfo lib))
        → Keeps SameAccounts (prove env lib host parent_key_id t excess p)
    prove-Keeps t excess none = λ w. (refl, refl)
    prove-Keeps t excess (some p) =
        then (lift (host.address_from_derivation_path parent_key_id 0)) _ (λ w. (refl, refl))
          (λ key w. (refl, refl))

    build-Keeps :
        (s : Slate lib) (height : ℕ)
        → Keeps SameAccounts (build_recipient_output env lib host s height parent_key_id)
    unfolding build_recipient_output
    build-Keeps s height = then (unwrap env lib host (next_child env)) _ next_child-Keeps (λ key_id.
        then (lift env.unlocked) _ (λ w. (refl, refl))
          (λ u.
            then (lift (add_transaction_elements lib s (output s.amount key_id ∷ []))) _
              (λ w. (refl, refl))
              (λ built.
                then (calc_commit_for_cache env s.amount key_id) _
                  (calc_commit-Keeps s.amount key_id)
                  (λ commit.
                    then
                      (in_batch env
                        (written env lib host built.0 s.amount height parent_key_id key_id commit))
                      _ (in_batch-Keeps _ (written-Keeps built.0 s.amount height key_id commit))
                      (λ t w. (refl, refl))))))

    add_output-Keeps :
        (s : Slate lib) (height : ℕ)
        → Keeps SameAccounts (add_output_to_slate env lib host s height parent_key_id false)
    unfolding add_output_to_slate
    add_output-Keeps s height =
        then (lift env.unlocked) _ (λ w. (refl, refl))
          (λ u.
            then (build_recipient_output env lib host s height parent_key_id) _
              (build-Keeps s height)
              (λ b.
                then (lift (fill_round_1 lib b.0 b.2)) _ (λ w. (refl, refl))
                  (λ filled.
                    then (lift env.unlocked) _ (λ w. (refl, refl))
                      (λ u.
                        then (lift (fill_round_2 lib filled b.2.sec_key b.2.sec_nonce)) _
                          (λ w. (refl, refl))
                          (λ signed.
                            then (lift env.unlocked) _ (λ w. (refl, refl))
                              (λ u.
                                then (lift (calc_excess lib signed)) _ (λ w. (refl, refl))
                                  (λ excess.
                                    let t' = record (b.3) {
                                      kernel_excess = some (host.commitment_code excess);
                                    } in
                                    then (in_batch env (save_tx_log_entry env t' parent_key_id)) _
                                      (in_batch-Keeps _ (save_tx_log_entry-Keeps t' parent_key_id))
                                      (λ u w. (refl, refl)))))))))

    pub receive_at-Keeps :
        (s : Slate lib) (height : ℕ)
        → Keeps SameAccounts (receive_at env lib host s parent_key_id height)
    unfolding receive_at
    receive_at-Keeps s height =
        let s0 = record s { tx = some lib.empty_transaction } in
        then (lift env.unlocked) _ (λ w. (refl, refl))
          (λ u.
            then (add_output_to_slate env lib host s0 height parent_key_id false) _
              (add_output-Keeps s0 height)
              (λ a.
                then (lift (adjust_offset lib a.0 a.1)) _ (λ w. (refl, refl))
                  (λ moved.
                    then (lift (calc_excess lib moved)) _ (λ w. (refl, refl))
                      (λ excess.
                        then (prove env lib host parent_key_id moved excess moved.payment_proof) _
                          (prove-Keeps moved excess moved.payment_proof)
                          (λ proof.
                            let s1 = record moved {
                              payment_proof = proof;
                              amount = 0;
                              fee_fields = lib.zero_fee;
                            } in
                            then (lift (remove_other_sigdata lib s1 a.1.sec_nonce a.1.sec_key)) _
                              (λ w. (refl, refl))
                              (λ mine.
                                let s2 = record mine { state = standard2 } in
                                then (update_tx_slate_state env lib host parent_key_id s2) _
                                  (update-Keeps s2) (λ u w. (refl, refl))))))))
