-- ===== src/Exchange/Lock/Whole.antt =====
-- The locking of outputs as a whole (`lock_tx_context` of libwallet/src/internal/selection.rs).
use mathlib.Core.Path.{subst}
use grin_wallet.Prelude.{ℕ, ◌≡◌, refl, sym, ◌∙◌, ◌⊎◌, inl, inr, Option, none, some, List, map}
use grin_wallet.Prelude.Result.{Result, ok, err, panic, stuck}
use grin_wallet.Prelude.Exec.{lift, continue}
use grin_wallet.Prelude.Triple.{Triple, Triple->>=}
use grin_wallet.Bytes.{Bytes, bytes_eq_refl}
use grin_wallet.TxLog.{TxLogEntry, StoredProofInfo, tx_sent, new_tx_log_entry}
use grin_wallet.Context.{Context}
use grin_wallet.Libtx.{Libtx}
use grin_wallet.Slates.{Slate, PaymentInfo, tx_or_err}
use grin_wallet.Backend.{
  Env, Wallet, Op, in_batch, save_tx_log_entry, to_key_u64, id_bytes, next_tx_log_id, or_zero,
}
use grin_wallet.Updater.Cancel.Restored.{Keyed}
use grin_wallet.Updater.Refresh.Height.{in_batch-cases}
use grin_wallet.Exchange.{Host}
use grin_wallet.Exchange.Lock.{
  ChangeCommit, output_commits, lock_inputs, save_changes, stored_proof, required, sent_entry,
  lock_under, lock_batch, lock_with, lock_tx_context,
}
use grin_wallet.Exchange.Lock.Locked.{Locking, AllNow, lock_inputs-Locking}
use grin_wallet.Exchange.Lock.Commits.{asked_for, output_commits-Still, output_commits-asked}
use grin_wallet.Exchange.Lock.Changed.{
  IsLocked, AllChanged, save_changes-IsLocked, save_changes-AllChanged,
}

module _ (env : Env) (lib : Libtx) (host : Host lib) (s : Slate lib) (height : ℕ)
    (context : Context) (excess_override : Option ℕ) where
  -- The entry of a transaction that is sent.
  pub record IsSent (log_id : ℕ) (t : TxLogEntry) : Type 0 where
    pub sent : t.tx_type ≡ tx_sent
    pub account : t.parent_key_id ≡ context.parent_key_id
    pub number : t.id ≡ log_id
    pub of_slate : t.tx_slate_id ≡ some s.id
    pub fee : t.fee ≡ context.fee

  abbrev log_key : ℕ → Bytes
  log_key log_id = to_key_u64 (id_bytes context.parent_key_id) log_id

  abbrev pub Locked : Wallet env → ℕ → List ChangeCommit → Wallet env → Type 0
  Locked w0 log_id commits =
      IsLocked env w0 log_id lib host context.parent_key_id height commits context.input_ids

  -- Every change output of the context is stored.
  abbrev pub Changed : Wallet env → ℕ → List ChangeCommit → Wallet env → Type 0
  Changed w0 log_id commits =
      AllChanged env w0 log_id lib host context.parent_key_id height commits context.output_ids

  -- The entry of the transaction is stored, every output is under its own key, each key holds what
  -- it held, the output that it held with the lock of the entry, or a change output, and every
  -- change output is stored.
  abbrev pub Done : Wallet env → ℕ → List ChangeCommit → Wallet env → Type 0
  Done w0 log_id commits w =
      (t : TxLogEntry) × (env.get w.tx_logs (log_key log_id) ≡ some t)
      × IsSent log_id t
      × Locked w0 log_id commits w
      × Changed w0 log_id commits w

  stored_proof_still :
      (P : Wallet env → Type 0) (p : Option (PaymentInfo lib))
      → Triple P
          (stored_proof env lib host context.parent_key_id context.payment_proof_derivation_index p)
          (λ _ w. P w)
  stored_proof_still P none = λ w l a e. l
  stored_proof_still P (some p) =
      Triple->>= P (λ _ w. P w) (λ _ w. P w)
        (lift (required env lib host context.payment_proof_derivation_index)) _ (λ w l a e. l)
        (λ path.
          Triple->>= P (λ _ w. P w) (λ _ w. P w)
            (lift (host.address_from_derivation_path context.parent_key_id path)) _ (λ w l a e. l)
            (λ key.
              Triple->>= P (λ _ w. P w) (λ _ w. P w) (lift (host.onion_address key)) _
                (λ w l a e. l) (λ a w l b e. l)))

  entry_saved :
      (w0 : Wallet env) (log_id amount : ℕ) (proof : Option StoredProofInfo) (credited : ℕ × ℕ)
      (commits : List ChangeCommit)
      → Triple
          (λ w. Locked w0 log_id commits w × Changed w0 log_id commits w)
          (save_tx_log_entry env
            (sent_entry env lib host s height context excess_override log_id amount proof credited)
            context.parent_key_id)
          (λ _ w. Done w0 log_id commits w)
  unfolding save_tx_log_entry new_tx_log_entry
  entry_saved w0 log_id amount proof credited commits w (locked, changed) u e =
      let t =
        sent_entry env lib host s height context excess_override log_id amount proof credited in
      (
        t,
        env.get-put w.tx_logs (log_key log_id) (log_key log_id) t
            ∙ rw (bytes_eq_refl (log_key log_id)) refl,
        record { sent = refl; account = refl; number = refl; of_slate = refl; fee = refl },
        record { keyed = locked.keyed; all = locked.all; inputs = locked.inputs },
        changed,
      )

  lock_under-Done :
      (w0 : Wallet env) (commits : List ChangeCommit) (log_id : ℕ)
      → Triple
          (Locking env w0 log_id)
          (lock_under env lib host s height context excess_override commits log_id)
          (λ _ w. Done w0 log_id commits w)
  unfolding lock_under
  lock_under-Done w0 commits log_id =
      let L = Locking env w0 log_id in
      let A = λ (w : Wallet env). L w × AllNow env w0 log_id context.input_ids w in
      let C = λ (w : Wallet env). Locked w0 log_id commits w × Changed w0 log_id commits w in
      let D = λ (u : Unit {0}) (w : Wallet env). Done w0 log_id commits w in
      Triple->>= L (λ _ w. A w) D (lock_inputs env lib host log_id 0 context.input_ids) _
        (lock_inputs-Locking env w0 log_id lib host context.input_ids 0)
        (λ amount.
          Triple->>= A (λ _ w. A w) D
            (stored_proof env lib host context.parent_key_id context.payment_proof_derivation_index
              s.payment_proof)
            _ (stored_proof_still A s.payment_proof)
            (λ proof.
              Triple->>= A (λ _ w. C w) D
                (save_changes env lib host context.parent_key_id height log_id commits (0, 0)
                  context.output_ids)
                _
                (λ w l n e. (
                  save_changes-IsLocked env w0 log_id lib host context.parent_key_id height commits
                      context.input_ids context.output_ids (0, 0) w
                      (record {
                        keyed = l.0.0;
                        all = λ k. inl (l.0.1 k);
                        inputs = λ i m. inl (l.1 i m);
                      })
                      n e,
                  save_changes-AllChanged env w0 log_id lib host context.parent_key_id height
                      commits context.output_ids (0, 0) w tt n e,
                ))
                (λ credited. entry_saved w0 log_id amount proof credited commits)))

  -- Either nothing has changed, or all has been done.
  abbrev Outcome : List ChangeCommit → Wallet env → Wallet env → Type 0
  Outcome commits w0 w = (w ≡ w0) ⊎ ((log_id : ℕ) × Done w0 log_id commits w)

  lock_batch-Outcome :
      (w : Wallet env) (commits : List ChangeCommit)
      → Keyed env w
      → Outcome commits w
          (in_batch env (lock_batch env lib host s height context excess_override commits) w).1
  unfolding lock_batch next_tx_log_id
  lock_batch-Outcome w commits keyed =
      let m = lock_batch env lib host s height context excess_override commits in
      let log_id = or_zero env (env.get w.tx_log_ids (id_bytes context.parent_key_id)) in
      elim (in_batch-cases env m w) [
        | inl e ↦ inl e
        | inr (a, e, f) ↦ inr (
          log_id,
          subst (λ v. Done w log_id commits v) (sym f)
              (lock_under-Done w commits log_id (next_tx_log_id env context.parent_key_id w).1
                (keyed, λ k. inl refl) a e),
        )
      ]

  -- Steps that leave the state alone do not change the outcome.
  still_then :
      {A B : Type 0} (P : Wallet env → Type 0) (r : Result A) (v : Wallet env) (f : A → Op env B)
      → P v
      → ((a : A) → r ≡ ok a → P (f a v).1)
      → P (continue r f v).1
  still_then P (ok a) v f p h = h a refl
  still_then P (err e) v f p h = p
  still_then P panic v f p h = p
  still_then P stuck v f p h = p

  lock_with-Outcome :
      (w : Wallet env) (commits : List ChangeCommit)
      → Keyed env w
      → Outcome commits w (lock_with env lib host s height context excess_override commits w).1
  unfolding lock_with
  lock_with-Outcome w commits keyed =
      let m = in_batch env (lock_batch env lib host s height context excess_override commits) in
      let O = Outcome commits w in
      let done = lock_batch-Outcome w commits keyed in
      still_then O env.unlocked w _ (inl refl) (λ u e.
        still_then O (m w).0 (m w).1 _ done
          (λ u e. still_then O (tx_or_err lib s) (m w).1 _ done (λ tx e. done)))

  -- The locking of outputs is all or nothing, on every path, the failures included: in a wallet whose
  -- outputs stand under their own keys it leaves the wallet as it was, or all of this is done: there
  -- are commitments with the identifiers and amounts of the outputs of the context; the entry of the
  -- transaction is stored under its number; every output stands under its own key; each key holds
  -- what it held, the output that it held, now locked and with the number of the entry, or an
  -- unconfirmed change output of the number, with the last commitment and amount under its
  -- identifier; the key of an input holds one of the latter two; and the key of every output of the
  -- context holds such a change output.
  pub lock_tx_context_all_or_nothing :
      (w : Wallet env)
      → Keyed env w
      → ((lock_tx_context env lib host s height context excess_override w).1 ≡ w)
        ⊎ ((commits : List ChangeCommit) × ((output_commits env lib host context.output_ids w).0
              ≡ ok commits)
            × (map asked_for commits ≡ map (λ i. (i.0, i.2)) context.output_ids)
            × ((log_id : ℕ) × Done w log_id commits
                  (lock_tx_context env lib host s height context excess_override w).1))
  unfolding lock_tx_context
  lock_tx_context_all_or_nothing w keyed =
      let c = output_commits env lib host context.output_ids w in
      let E = λ (v : Wallet env).
        (v ≡ w)
        ⊎ ((commits : List ChangeCommit) × (c.0 ≡ ok commits)
            × (map asked_for commits ≡ map (λ i. (i.0, i.2)) context.output_ids)
            × ((log_id : ℕ) × Done w log_id commits v)) in
      let same = output_commits-Still env lib host context.output_ids w in
      still_then E c.0 c.1 (lock_with env lib host s height context excess_override) (inl same)
        (λ commits e.
          subst (λ v. E (lock_with env lib host s height context excess_override commits v).1)
            (sym same)
            (elim (lock_with-Outcome w commits keyed) [
              | inl still ↦ inl still
              | inr done ↦ inr (
                commits,
                e,
                output_commits-asked env lib host context.output_ids w commits e,
                done,
              )
            ]))
