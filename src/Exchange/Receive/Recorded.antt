-- ===== src/Exchange/Receive/Recorded.antt =====
-- The log of a wallet that receives a slate (`receive_tx` of libwallet/src/api_impl/foreign.rs).
use mathlib.Core.Path.{subst}
use grin_wallet.Prelude.{
  ℕ, ◌≡◌, refl, sym, ◌∙◌, ap, Bool, true, false, Option, none, some, List, [], ◌∷◌, All, find?,
  opt_eq, opt_eq_iff, Bool-cases, inl, inr, any, filter, ◌&&◌, ◌==◌, ==_iff, some_injective,
}
use grin_wallet.Prelude.Exec.{lift}
use grin_wallet.Prelude.Triple.{Triple, Triple->>=}
use grin_wallet.Bytes.{Bytes}
use grin_wallet.TxLog.{TxLogEntry, standard2, is_type, tx_received}
use grin_wallet.Context.{Context}
use grin_wallet.Libtx.{Libtx}
use grin_wallet.Slates.{Slate, fill_round_1, calc_excess, adjust_offset, remove_other_sigdata}
use grin_wallet.Slates.Identity.{
  fill_round_1-id, fill_round_2-id, adjust_offset-id, remove_other_sigdata-id,
}
use grin_wallet.Slates.Signing.{fill_round_2}
use grin_wallet.Backend.{Env, Wallet, in_batch, save_tx_log_entry, tx_log_iter}
use grin_wallet.Updater.Query.{is_listed, by_creation, listed_txs}
use grin_wallet.Updater.Cancel.Stored.{any-sort_by, any-filter, any-false}
use grin_wallet.Exchange.{Host, update_tx_slate_state, save_found}
use grin_wallet.Exchange.Receive.{
  build_recipient_output, add_output_to_slate, receive_at, is_received, prove,
}
use grin_wallet.Exchange.Receive.Logged.{IsReceived, IsNew, Logged, put-Logged}
use grin_wallet.Backend.Triples.{Triple-in_batch, Triple-pure}
use grin_wallet.Exchange.Receive.Written.{Built, build_recipient_output-Built}

find?-All {ℓ κ} :
    {A : Type ℓ} (P : A → Type κ) (p : A → Bool) (xs : List A) (a : A)
    → All P xs
    → find? p xs ≡ some a
    → P a × (p a ≡ true)
unfolding find?
find?-All P p [] a h e = cc
find?-All P p (x ∷ xs) a (h, hs) e = elim (Bool-cases (p x)) [
  | inl t ↦ let f = some_injective (rw t at e) in (subst P f h, subst (λ y. p y ≡ true) f t)
  | inr f ↦ find?-All P p xs a hs (rw f at e)
]

-- What is held in a table is met by iteration.
any-iter :
    {V : Type 0} (env : Env) (q : V → Bool) (t : env.Table V) (k : Bytes) (v : V)
    → env.get t k ≡ some v
    → q v ≡ true
    → any q (env.iter t) ≡ true
any-iter env q t k v e h = elim (Bool-cases (any q (env.iter t))) [
  | inl a ↦ a
  | inr a ↦ let no = env.iter_complete t (λ x. q x ≡ false) (any-false q (env.iter t) a) k v e in cc
]

module _ (env : Env) (lib : Libtx) (host : Host lib) (id parent_key_id : ℕ) where
  -- The slate of the number `id`, and its entry under some number.
  abbrev pub Recorded : Slate lib → Wallet env → Type 0
  Recorded s w = (s.id ≡ id) × ((n : ℕ) × Logged env id parent_key_id n w.tx_logs)

  excess_saved :
      (t t' : TxLogEntry)
      → t'.tx_type ≡ t.tx_type
      → t'.parent_key_id ≡ t.parent_key_id
      → t'.tx_slate_id ≡ t.tx_slate_id
      → t'.id ≡ t.id
      → (n : ℕ) → IsReceived env id parent_key_id n t
      → Triple
          (λ w. Logged env id parent_key_id n w.tx_logs)
          (save_tx_log_entry env t' parent_key_id)
          (λ _ w. Logged env id parent_key_id n w.tx_logs)
  unfolding save_tx_log_entry
  excess_saved t t' a b c d n m w l u e =
      put-Logged env id parent_key_id n w.tx_logs t' l.only (record {
        received = a ∙ m.received;
        account = b ∙ m.account;
        of_slate = c ∙ m.of_slate;
        number = d ∙ m.number;
      })

  abbrev Under : ℕ → Wallet env → Type 0
  Under n w = Logged env id parent_key_id n w.tx_logs

  save_found-Under :
      (s : Slate lib) (n : ℕ) (o : Option TxLogEntry)
      → ((t : TxLogEntry) → o ≡ some t → IsReceived env id parent_key_id n t)
      → Triple (Under n) (save_found env lib host parent_key_id s o) (λ _ w. Under n w)
  save_found-Under s n none h = λ w l u e. cc
  save_found-Under s n (some t) h =
      let t' = record t { tx_slate_state = some s.state } in
      Triple-in_batch env (Under n) (save_tx_log_entry env t' parent_key_id) (λ _ w. Under n w)
        (excess_saved t t' refl refl refl refl n (h t refl))

  update_tx_slate_state-Under :
      (s : Slate lib) (n : ℕ)
      → s.id ≡ id
      → Triple (Under n) (update_tx_slate_state env lib host parent_key_id s) (λ _ w. Under n w)
  unfolding update_tx_slate_state
  update_tx_slate_state-Under s n i w l =
      let p = λ (tx : TxLogEntry). opt_eq tx.tx_slate_id (some s.id) in
      let found = λ (t : TxLogEntry) (f : find? p (tx_log_iter env w) ≡ some t).
        let ((k, g), q) =
          find?-All (λ x. (k : Bytes) × (env.get w.tx_logs k ≡ some x)) p (tx_log_iter env w) t
            (env.iter_sound w.tx_logs _ (λ k x g. (k, g))) f in
        l.only k t g ((opt_eq_iff t.tx_slate_id (some s.id)).0 q ∙ ap some i) in
      save_found-Under s n (find? p (tx_log_iter env w)) found w l

  abbrev Added : Slate lib × Context → Wallet env → Type 0
  Added a w = Recorded a.0 w

  add_output_to_slate-Recorded :
      (s : Slate lib) (height : ℕ)
      → s.id ≡ id
      → Triple
          (λ w. IsNew env id parent_key_id w.tx_logs)
          (add_output_to_slate env lib host s height parent_key_id false)
          Added
  unfolding add_output_to_slate
  add_output_to_slate-Recorded s height i =
      let New = λ (w : Wallet env). IsNew env id parent_key_id w.tx_logs in
      Triple->>= New (λ _ w. New w) Added (lift env.unlocked) _ (λ w p u e. p)
        (λ u.
          Triple->>= New (Built env lib host id parent_key_id) Added
            (build_recipient_output env lib host s height parent_key_id) _
            (build_recipient_output-Built env lib host id parent_key_id s height i)
            (λ b.
              let Of = λ (f : Slate lib) (w : Wallet env).
                Built env lib host id parent_key_id b w × (f.id ≡ id) in
              Triple->>= (Built env lib host id parent_key_id b) Of Added
                (lift (fill_round_1 lib b.0 b.2)) _
                (λ w p f e. (p, fill_round_1-id lib b.0 f b.2 e ∙ p.0))
                (λ filled.
                  Triple->>= (Of filled) (λ _ w. Of filled w) Added (lift env.unlocked) _
                    (λ w p u e. p)
                    (λ u.
                      Triple->>= (Of filled) Of Added
                        (lift (fill_round_2 lib filled b.2.sec_key b.2.sec_nonce)) _
                        (λ w p f e.
                          (p.0, fill_round_2-id lib filled f b.2.sec_key b.2.sec_nonce e ∙ p.1))
                        (λ signed.
                          Triple->>= (Of signed) (λ _ w. Of signed w) Added (lift env.unlocked) _
                            (λ w p u e. p)
                            (λ u.
                              Triple->>= (Of signed) (λ _ w. Of signed w) Added
                                (lift (calc_excess lib signed)) _ (λ w p u e. p)
                                (λ excess.
                                  let t' = record (b.3) {
                                    kernel_excess = some (host.commitment_code excess);
                                  } in
                                  Triple->>= (Of signed) (λ _ w. Recorded signed w) Added
                                    (in_batch env (save_tx_log_entry env t' parent_key_id)) _
                                    (Triple-in_batch env (Of signed)
                                      (save_tx_log_entry env t' parent_key_id)
                                      (λ _ w. Recorded signed w)
                                      (λ w p u e. (
                                        p.1,
                                        (
                                          b.3.id,
                                          excess_saved b.3 t' refl refl refl refl b.3.id p.0.1 w
                                              p.0.2 u e,
                                        ),
                                      )))
                                    (λ u.
                                      Triple-pure env (Recorded signed) _ Added (λ w p. p)))))))))

  prove-Recorded :
      (s t : Slate lib) (excess : lib.Commitment) (p : _)
      → Triple (Recorded s) (prove env lib host parent_key_id t excess p) (λ _ w. Recorded s w)
  prove-Recorded s t excess none = λ w r a e. r
  prove-Recorded s t excess (some p) =
      Triple->>= (Recorded s) (λ _ w. Recorded s w) (λ _ w. Recorded s w)
        (lift (host.address_from_derivation_path parent_key_id 0)) _ (λ w r u e. r)
        (λ key. Triple-pure env (Recorded s) _ (λ _ w. Recorded s w) (λ w r. r))

  pub receive_at-Recorded :
      (s : Slate lib) (height : ℕ)
      → s.id ≡ id
      → Triple
          (λ w. IsNew env id parent_key_id w.tx_logs)
          (receive_at env lib host s parent_key_id height)
          Recorded
  unfolding receive_at
  receive_at-Recorded s height i =
      let New = λ (w : Wallet env). IsNew env id parent_key_id w.tx_logs in
      Triple->>= New (λ _ w. New w) Recorded (lift env.unlocked) _ (λ w p u e. p)
        (λ u.
          let s0 = record s { tx = some lib.empty_transaction } in
          Triple->>= New Added Recorded
            (add_output_to_slate env lib host s0 height parent_key_id false) _
            (add_output_to_slate-Recorded s0 height i)
            (λ a.
              Triple->>= (Added a) Recorded Recorded (lift (adjust_offset lib a.0 a.1)) _
                (λ w p m e. (adjust_offset-id lib a.0 m a.1 e ∙ p.0, p.1))
                (λ moved.
                  Triple->>= (Recorded moved) (λ _ w. Recorded moved w) Recorded
                    (lift (calc_excess lib moved)) _ (λ w p u e. p)
                    (λ excess.
                      Triple->>= (Recorded moved) (λ _ w. Recorded moved w) Recorded
                        (prove env lib host parent_key_id moved excess moved.payment_proof) _
                        (prove-Recorded moved moved excess moved.payment_proof)
                        (λ proof.
                          let s1 = record moved {
                            payment_proof = proof;
                            amount = 0;
                            fee_fields = lib.zero_fee;
                          } in
                          Triple->>= (Recorded moved) Recorded Recorded
                            (lift (remove_other_sigdata lib s1 a.1.sec_nonce a.1.sec_key)) _
                            (λ w p m e. (
                              remove_other_sigdata-id lib s1 m a.1.sec_nonce a.1.sec_key e ∙ p.0,
                              p.1,
                            ))
                            (λ mine.
                              let s2 = record mine { state = standard2 } in
                              Triple->>= (Recorded mine) (λ _ w. Recorded mine w) Recorded
                                (update_tx_slate_state env lib host parent_key_id s2) _
                                (λ w (j, (n, l)) u e.
                                  (j, (n, update_tx_slate_state-Under s2 n j w l u e)))
                                (λ u. Triple-pure env (Recorded mine) s2 Recorded (λ w p. p))))))))

  -- The entries of the account that are of the slate have one that was received.
  pub Recorded-is_received :
      (s r : Slate lib) (w : Wallet env)
      → s.id ≡ id
      → Recorded r w
      → is_received env lib host s parent_key_id false w ≡ true
  unfolding is_received listed_txs is_listed
  Recorded-is_received s r w i (j, (n, l)) =
      let listed = is_listed none (some s.id) (some parent_key_id) false in
      let received = λ (t : TxLogEntry). is_type t.tx_type tx_received in
      let account : (l.entry.parent_key_id == parent_key_id) ≡ true =
        (==_iff _ _).1 l.mine.account in
      let of_slate =
        (opt_eq_iff l.entry.tx_slate_id (some s.id)).1 (l.mine.of_slate ∙ ap some (sym i)) in
      let type = ap (λ t. is_type t tx_received) l.mine.received in
      let found : (listed l.entry && received l.entry) ≡ true = rw (account, of_slate, type) refl in
      any-sort_by by_creation received (filter listed (tx_log_iter env w))
      ∙ any-filter listed received (tx_log_iter env w)
      ∙ any-iter env (λ t. listed t && received t) w.tx_logs l.key l.entry l.there found
