-- ===== src/Exchange/Receive/Written.antt =====
-- The output and the entry of a received slate (`build_recipient_output` of
-- libwallet/src/internal/selection.rs).
use mathlib.Core.Path.{subst}
use grin_wallet.Prelude.{ℕ, ◌≡◌, refl, sym, ◌∙◌, ap, Option, some, [], ◌∷◌, arith}
use grin_wallet.Prelude.Result.{ok_injective}
use grin_wallet.Prelude.Exec.{lift}
use grin_wallet.Prelude.Keeps.{IsPreorder, Keeps}
use grin_wallet.Prelude.Triple.{Triple, Triple->>=}
use grin_wallet.TxLog.{TxLogEntry, new_tx_log_entry}
use grin_wallet.Context.{Context}
use grin_wallet.Libtx.{Libtx}
use grin_wallet.Slates.{Slate, add_transaction_elements}
use grin_wallet.Selection.Change.{output}
use grin_wallet.Backend.{
  Env, Wallet, Op, in_batch, next_child, save_child_index, calc_commit_for_cache, next_tx_log_id,
  save, save_tx_log_entry, or_zero, id_bytes,
}
use grin_wallet.Slates.Identity.{add_transaction_elements-id}
use grin_wallet.Backend.Triples.{Triple-in_batch, Triple-pure}
use grin_wallet.Exchange.{Host}
use grin_wallet.Exchange.Receive.{build_recipient_output, unwrap, written, received_entry}
use grin_wallet.Exchange.Receive.Logged.{IsReceived, IsNew, Logged, put-Logged, IsNew-OnlyReceived}

module _ (env : Env) where
  -- The log of transactions stays as it is.
  abbrev pub SameLogs : Wallet env → Wallet env → Type 0
  SameLogs w w' = w'.tx_logs ≡ w.tx_logs

  SameLogs-IsPreorder : IsPreorder SameLogs
  SameLogs-IsPreorder = record { reflexive = λ w. refl; transitive = λ u v w p q. q ∙ p }

  -- What holds of the log is kept by an operation that leaves it alone.
  pub Triple-quiet :
      {A : Type 0} (P : env.Table TxLogEntry → Type 0) (m : Op env A)
      → Keeps SameLogs m
      → Triple (λ w. P w.tx_logs) m (λ a w. P w.tx_logs)
  Triple-quiet P m h s p a e = subst P (sym (h s)) p

  calc_commit_quiet : (amount id : ℕ) → Keeps SameLogs (calc_commit_for_cache env amount id)
  calc_commit_quiet amount id w = ground arith

  next_child_quiet : Keeps SameLogs (next_child env)
  unfolding next_child save_child_index
  next_child_quiet w = ground arith

  module _ (lib : Libtx) (host : Host lib) (id parent_key_id : ℕ) where
    abbrev pub Entered : Slate lib → TxLogEntry → Wallet env → Type 0
    Entered s t w =
        (s.id ≡ id)
        × IsReceived env id parent_key_id t.id t
        × Logged env id parent_key_id t.id w.tx_logs

    entry-IsReceived :
        (s : Slate lib) (height log_id : ℕ)
        → s.id ≡ id
        → IsReceived env id parent_key_id log_id
            (received_entry env lib host s height parent_key_id log_id)
    unfolding new_tx_log_entry
    entry-IsReceived s height log_id i = record {
      received = refl;
      account = refl;
      of_slate = ap some i;
      number = refl;
    }

    written-Logged :
        (s : Slate lib) (amount height key_id : ℕ) (commit : Option ℕ)
        → Triple
            (λ w. IsNew env id parent_key_id w.tx_logs × (s.id ≡ id))
            (written env lib host s amount height parent_key_id key_id commit)
            (Entered s)
    unfolding written next_tx_log_id save save_tx_log_entry new_tx_log_entry
    written-Logged s amount height key_id commit w (p, i) t e =
        let log_id = or_zero env (env.get w.tx_log_ids (id_bytes parent_key_id)) in
        let mine = entry-IsReceived s height log_id i in
        subst
          (λ u. Entered s u (written env lib host s amount height parent_key_id key_id commit w).1)
          (ok_injective e)
          (
            i,
            mine,
            put-Logged env id parent_key_id log_id w.tx_logs _
                (IsNew-OnlyReceived env id parent_key_id log_id w.tx_logs p) mine,
          )

    abbrev pub Built : Slate lib × ℕ × Context × TxLogEntry → Wallet env → Type 0
    Built b w =
        (b.0.id ≡ id)
        × IsReceived env id parent_key_id b.3.id b.3
        × Logged env id parent_key_id b.3.id w.tx_logs

    pub build_recipient_output-Built :
        (s : Slate lib) (height : ℕ)
        → s.id ≡ id
        → Triple
            (λ w. IsNew env id parent_key_id w.tx_logs)
            (build_recipient_output env lib host s height parent_key_id)
            Built
    unfolding build_recipient_output
    build_recipient_output-Built s height i =
        let New = λ (w : Wallet env). IsNew env id parent_key_id w.tx_logs in
        Triple->>= New (λ _ w. New w) Built (unwrap env lib host (next_child env)) _
          (Triple-quiet (IsNew env id parent_key_id) (unwrap env lib host (next_child env))
            next_child_quiet)
          (λ key_id.
            Triple->>= New (λ _ w. New w) Built (lift env.unlocked) _ (λ w p u e. p)
              (λ u.
                Triple->>= New (λ b w. New w × (b.0.id ≡ id)) Built
                  (lift (add_transaction_elements lib s (output s.amount key_id ∷ []))) _
                  (λ w p b e. (p, add_transaction_elements-id lib s _ b e ∙ i))
                  (λ built.
                    Triple->>= _ (λ _ w. New w × (built.0.id ≡ id)) Built
                      (calc_commit_for_cache env s.amount key_id) _
                      (Triple-quiet (λ l. IsNew env id parent_key_id l × (built.0.id ≡ id))
                        (calc_commit_for_cache env s.amount key_id)
                        (calc_commit_quiet s.amount key_id))
                      (λ commit.
                        Triple->>= _ (λ t w. Entered built.0 t w) Built
                          (in_batch env (
                            written env lib host built.0 s.amount height parent_key_id key_id
                              commit))
                          _
                          (Triple-in_batch env (λ w. New w × (built.0.id ≡ id))
                            (written env lib host built.0 s.amount height parent_key_id key_id
                              commit)
                            (Entered built.0)
                            (written-Logged built.0 s.amount height key_id commit))
                          (λ t. Triple-pure env (Entered built.0 t) _ Built (λ w p. p))))))
