-- ===== src/Exchange/Init/LateLock.antt =====
-- The amount of a late lock (`create_late_lock_context` of libwallet/src/internal/tx.rs).
use grin_wallet.Prelude.{ℕ, ◌+◌, ◌≡◌, sym, ◌∙◌, ap, true, some, List, arith}
use grin_wallet.Prelude.Result.{ok, ok_injective}
use grin_wallet.Prelude.Exec.{lift, exec-eq-ok}
use grin_wallet.Output.{OutputData}
use grin_wallet.Context.{Context, with_excess}
use grin_wallet.Libtx.{Libtx}
use grin_wallet.Slates.{Slate, add_participant_info, fill_round_1}
use grin_wallet.Selection.{Request}
use grin_wallet.Selection.Fee.{select_coins_and_fee}
use grin_wallet.Selection.Fee.Sound.{Fits, IsSelection, select_coins_and_fee-IsSelection}
use grin_wallet.Backend.{Env, Wallet, iter}
use grin_wallet.Updater.Refresh.{NodeClient}
use grin_wallet.Exchange.{Host, new_context}
use grin_wallet.Exchange.Init.{
  InitTxArgs, request_of, is_true, refresh_if, create_late_lock_context, late_args,
}

module _ (env : Env) (lib : Libtx) (host : Host lib) where
  fill_round_1-amount :
      (s r : Slate lib) (c : Context)
      → fill_round_1 lib s c ≡ ok r
      → (r.amount ≡ s.amount) × (r.fee_fields ≡ s.fee_fields)
  unfolding add_participant_info
  fill_round_1-amount s r c e = ground arith

  -- The wallet after the refresh, where there is one.
  abbrev pub refreshed : NodeClient → InitTxArgs lib → ℕ → Wallet env → Wallet env
  refreshed node args parent_key_id w =
      (refresh_if env lib host node args.refresh_outputs_from_node parent_key_id w).1

  abbrev pub late_selection : InitTxArgs lib → ℕ → ℕ → Request
  late_selection args height parent_key_id =
      request_of env lib host args (is_true args.amount_includes_fee) height parent_key_id

  -- A late lock does not take the fee off its amount: where the amount includes the fee, of a slate of
  -- that amount and a refreshed wallet that fits 64 bits, coins are selected for the amount less the fee,
  -- while the slate and the context keep the whole amount beside the fee that was selected.
  pub create_late_lock_context_whole_amount :
      (node : NodeClient) (s s' : Slate lib) (height parent_key_id : ℕ) (args : InitTxArgs lib)
      (w : Wallet env) (c : Context)
      → args.amount_includes_fee ≡ some true
      → s.amount ≡ args.amount
      → Fits env.core
          (iter env (refreshed node args parent_key_id w))
          (late_selection args height parent_key_id)
      → (create_late_lock_context env lib host node s height args parent_key_id w).0 ≡ ok (s', c)
      → (coins : List OutputData) × (total amount fee : ℕ) × IsSelection env.core
          (iter env (refreshed node args parent_key_id w))
          (late_selection args height parent_key_id)
          coins
          total
          amount
          fee
        × (amount + fee ≡ args.amount)
        × (s'.amount ≡ args.amount)
        × (c.amount ≡ args.amount)
        × (host.new_fee 0 fee ≡ ok s'.fee_fields)
        × (c.fee ≡ some (host.fee_code s'.fee_fields))
  unfolding create_late_lock_context with_excess
  create_late_lock_context_whole_amount node s s' height parent_key_id args w c i m fits e =
      let r = late_selection args height parent_key_id in
      let w' = refreshed node args parent_key_id w in
      let (u, a1, a2, a3) =
        exec-eq-ok (refresh_if env lib host node args.refresh_outputs_from_node parent_key_id) _ w
          e in
      let (sel, b1, b2, b3) =
        exec-eq-ok (lift (select_coins_and_fee env.core (iter env w') r)) _ w' a2 in
      let (ff, c1, c2, c3) = exec-eq-ok (lift (host.new_fee 0 sel.3)) _ w' b2 in
      let (u', d1, d2, d3) = exec-eq-ok (lift env.unlocked) _ w' c2 in
      let (u'', f1, f2, f3) = exec-eq-ok (lift env.unlocked) _ w' d2 in
      let context = record (new_context env lib host parent_key_id) {
        fee = some (host.fee_code ff);
        amount = s.amount;
        late_lock_args = some (late_args env lib host args);
      } in
      let (filled, g1, g2, g3) =
        exec-eq-ok (lift (fill_round_1 lib (record s { fee_fields = ff }) context)) _ w' f2 in
      let (h, k) = fill_round_1-amount (record s { fee_fields = ff }) filled context g1 in
      let q =
        select_coins_and_fee-IsSelection env.core (iter env w') r fits sel.0 sel.1 sel.2 sel.3 b1 in
      let done = ok_injective g2 in
      let slate = ap (λ x. x.0) done in
      let fees = ap (λ x. x.fee_fields) (sym slate) ∙ k in
      (
        sel.0,
        sel.1,
        sel.2,
        sel.3,
        q,
        rw i at q.asked,
        ap (λ x. x.amount) (sym slate) ∙ h ∙ m,
        ap (λ x. x.1.amount) (sym done) ∙ m,
        c1 ∙ ap ok (sym fees),
        ap (λ x. x.1.fee) (sym done) ∙ ap (λ x. some (host.fee_code x)) (sym fees),
      )
