-- ===== src/Exchange/Send/Spends.antt =====
-- What a sender puts into a transaction (`build_send_tx` of libwallet/src/internal/selection.rs).
use mathlib.Core.Path.{subst}
use grin_wallet.Prelude.{
  ℕ, ◌+◌, ◌-◌, ◌≤◌, ◌<◌, ◌≡◌, refl, sym, ◌∙◌, ap, Bool, true, false, Option, none, some, List,
  some_injective, ◌++◌, map, All, ◌==◌, if◌then◌else◌, sub64, sub64_exact, u64_mod, Bool-cases, inl,
  inr, arith, ltb, ◌%◌, ◌/◌,
}
use grin_wallet.Prelude.Result.{Result, fee_error, ok, err, panic, stuck, ok_injective}
use grin_wallet.Prelude.Exec.{lift, raise, exec-eq-ok}
use grin_wallet.Output.{OutputData}
use grin_wallet.Context.{Context, with_excess}
use grin_wallet.Libtx.{Libtx}
use grin_wallet.Slates.{Slate, add_transaction_elements}
use grin_wallet.Slates.Identity.{add_transaction_elements-amount}
use grin_wallet.Selection.{Request}
use grin_wallet.Selection.Candidates.{IsCandidate}
use grin_wallet.Selection.Cover.{worth, total_of_lem}
use grin_wallet.Selection.Fee.{select_coins_and_fee}
use grin_wallet.Selection.Fee.Sound.{Fits, select_coins_and_fee-IsSelection}
use grin_wallet.Selection.Change.{Part, ChangeOutput, inputs_and_change, build_change, change_of}
use grin_wallet.Selection.Change.Balance.{amounts, build_change-amounts}
use grin_wallet.Backend.{Env, Wallet, Op, iter}
use grin_wallet.Exchange.{Host, new_context}
use grin_wallet.Exchange.Send.Ids.{input_id, output_id, add_inputs-ids, add_outputs-ids}
use grin_wallet.Exchange.Send.{
  select_send_tx, less_fee, is_other_fee, expect, add_inputs, add_outputs, build_send_tx,
}

module _ (env : Env) (lib : Libtx) (host : Host lib) where
  -- The change is paid at most.
  build_change-le :
      (change n : ℕ) (w : Wallet env) (cs : List ChangeOutput)
      → change < u64_mod
      → (build_change env change n w).0 ≡ ok cs
      → amounts cs ≤ change
  unfolding build_change
  build_change-le change n w cs b e = elim (Bool-cases (change == 0)) [
    | inl z ↦ ground arith
    | inr z ↦
        let (exact, less) = build_change-amounts env change n w cs (grind arith) b e in
        elim (Bool-cases (ltb (change % n) (change / n))) [
          | inl q ↦ omega (arith, exact (grind arith))
          | inr q ↦ omega (arith, less (grind arith))
        ]
  ]

  less_fee-ok :
      (b : Bool) (amount fee a : ℕ)
      → less_fee env lib host b amount fee ≡ ok a
      → (if b then a + fee else a) ≡ amount
  less_fee-ok true amount fee a e = grind arith
  less_fee-ok false amount fee a e = ground arith

  is_other_fee-same :
      (fee f : ℕ) (o : Option ℕ) → is_other_fee env lib host fee o ≡ false → o ≡ some f → f ≡ fee
  is_other_fee-same fee f none h e = cc
  is_other_fee-same fee f (some g) h e = grind (arith, some_injective e)

  -- What the amounts of a sender come to: the coins cover the amount, the fee and the change.
  pub record Spends (r : Request) (s s' : Slate lib) (fixed : Option ℕ) (c : Context) : Type 0 where
    pub coins : List OutputData
    pub change : List ChangeOutput
    pub the_fee : ℕ
    pub eligible : All (IsCandidate r) coins
    pub inputs : c.input_ids ≡ map input_id coins
    pub outputs : c.output_ids ≡ map output_id change
    pub sent : c.amount ≡ s'.amount
    pub asked : (if r.amount_includes_fee then s'.amount + the_fee else s'.amount) ≡ s.amount
    pub covered : s'.amount + the_fee + amounts change ≤ worth coins
    pub fee_fields : host.try_fee the_fee ≡ ok s'.fee_fields
    pub stored_fee : c.fee ≡ some (host.fee_code s'.fee_fields)
    pub promised : (f : ℕ) → fixed ≡ some f → f ≡ the_fee

  inputs_and_change-build_change :
      (coins : List OutputData) (amount fee n : ℕ) (w : Wallet env)
      (b : List Part × List ChangeOutput)
      → (inputs_and_change env coins amount fee n false w).0 ≡ ok b
      → (build_change env (change_of coins amount fee) n w).0 ≡ ok b.1
  unfolding inputs_and_change
  inputs_and_change-build_change coins amount fee n w b e =
      let (cs, f, g, h) = exec-eq-ok (build_change env (change_of coins amount fee) n) _ w e in
      f ∙ ap (λ x. ok x.1) (ok_injective g)

  select_send_tx-ok :
      (r : Request) (w : Wallet env) (sel : List Part × List OutputData × List ChangeOutput × ℕ)
      → (select_send_tx env lib host r false w).0 ≡ ok sel
      → (total amount : ℕ) × (select_coins_and_fee env.core (iter env w) r
          ≡ ok (sel.1, total, amount, sel.3))
        × ((build_change env (change_of sel.1 amount sel.3) r.change_outputs w).0 ≡ ok sel.2)
  unfolding select_send_tx
  select_send_tx-ok r w sel e =
      let (picked, f, g, h) =
        exec-eq-ok (lift (select_coins_and_fee env.core (iter env w) r)) _ w e in
      let (b, i, j, k) =
        exec-eq-ok (inputs_and_change env picked.0 picked.2 picked.3 r.change_outputs false) _ w
          g in
      let built =
        inputs_and_change-build_change picked.0 picked.2 picked.3 r.change_outputs w b i in
      let Q = λ (x : List Part × List OutputData × List ChangeOutput × ℕ).
        (select_coins_and_fee env.core (iter env w) r ≡ ok (x.1, picked.1, picked.2, x.3))
        × ((build_change env (change_of x.1 picked.2 x.3) r.change_outputs w).0 ≡ ok x.2) in
      let q = subst Q (ok_injective j) (f, built) in (picked.1, picked.2, q.0, q.1)

  same_part :
      (b : Bool) (a part fee asked : ℕ)
      → (if b then a + fee else a) ≡ asked
      → (if b then part + fee else part) ≡ asked
      → a ≡ part
  same_part true a part fee asked h k = omega arith
  same_part false a part fee asked h k = h ∙ sym k

  change_exact :
      (coins : List OutputData) (amount fee : ℕ)
      → worth coins < u64_mod
      → amount + fee ≤ worth coins
      → change_of coins amount fee ≡ worth coins - amount - fee
  change_exact coins amount fee b l =
      ap (λ t. sub64 (sub64 t amount) fee) (total_of_lem coins b)
      ∙ ap (λ t. sub64 t fee) (sub64_exact (worth coins) amount (omega arith) b)
      ∙ sub64_exact (worth coins - amount) fee (omega arith) (omega arith)

  not_raised :
      {A : Type 0} (b : Bool) (m : Op env A) (w : Wallet env) (a : A)
      → ((if b then raise fee_error else m) w).0 ≡ ok a
      → (b ≡ false) × ((m w).0 ≡ ok a)
  not_raised true m w a e = cc
  not_raised false m w a e = (refl, e)

  expect-ok : {A : Type 0} (r : Result A) (a : A) → expect env lib host r ≡ ok a → r ≡ ok a
  expect-ok (ok b) a e = e
  expect-ok (err x) a e = cc
  expect-ok panic a e = cc
  expect-ok stuck a e = cc

  covers_all :
      (b : Bool) (a part fee asked total : ℕ) (coins : List OutputData) (cs : List ChangeOutput)
      (n : ℕ) (w : Wallet env)
      → (if b then a + fee else a) ≡ asked
      → (if b then part + fee else part) ≡ asked
      → worth coins < u64_mod
      → total ≡ worth coins
      → part + fee ≤ total
      → (build_change env (change_of coins part fee) n w).0 ≡ ok cs
      → a + fee + amounts cs ≤ worth coins
  covers_all b a part fee asked total coins cs n w h k bound counted covers changed =
      let exact = change_exact coins part fee bound (omega arith) in
      let le = build_change-le (change_of coins part fee) n w cs (omega arith) changed in
      let same : a ≡ part = same_part b a part fee asked h k in omega arith

  -- A sender spends what it means to: where the transaction is built, of a wallet and an amount that
  -- fit 64 bits, the context has as inputs coins of the account that may be spent, and as outputs the
  -- change. The coins cover the amount of the slate, the fee and the change; the amount is the
  -- one that was asked for, less the fee where it includes it; and the fee is the one of the slate
  -- and of the context, and the one that was promised.
  pub build_send_tx-Spends :
      (s s' : Slate lib) (r : Request) (fixed : Option ℕ) (w : Wallet env) (c : Context)
      → Fits env.core (iter env w) (record r { amount = s.amount })
      → (build_send_tx env lib host s r fixed w).0 ≡ ok (s', c)
      → Spends r s s' fixed c
  unfolding build_send_tx with_excess
  build_send_tx-Spends s s' r fixed w c fits e =
      let r' = record r { amount = s.amount } in
      let (sel, a1, a2, a3) = exec-eq-ok (select_send_tx env lib host r' false) _ w e in
      let (total, part, chosen, changed) = select_send_tx-ok r' w sel a1 in
      let q =
        select_coins_and_fee-IsSelection env.core (iter env w) r' fits sel.1 total part sel.3
          chosen in
      let (amount, b1, b2, b3) =
        exec-eq-ok (lift (less_fee env lib host r.amount_includes_fee s.amount sel.3)) _ _ a2 in
      let (same, b4) = not_raised (is_other_fee env lib host sel.3 fixed) _ _ (s', c) b2 in
      let (ff, c1, c2, c3) = exec-eq-ok (lift (expect env lib host (host.try_fee sel.3))) _ _ b4 in
      let (built, d1, d2, d3) =
        exec-eq-ok
          (lift
            (add_transaction_elements lib (record s { amount = amount; fee_fields = ff }) sel.0))
          _ _ c2 in
      let context = record (new_context env lib host r.parent_key_id) {
        fee = some (host.fee_code ff);
        amount = amount;
      } in
      let (d, f1, f2, f3) =
        exec-eq-ok (add_outputs env lib host sel.2 (add_inputs env lib host sel.1 context)) _ _
          d2 in
      let (spent, kept, worth_kept, fee_kept) = add_inputs-ids env lib host sel.1 context in
      let (paid, spent', amount', fee') =
        add_outputs-ids env lib host sel.2 (add_inputs env lib host sel.1 context) d _ f1 in
      let (built_amount, built_fee) =
        add_transaction_elements-amount lib (record s { amount = amount; fee_fields = ff }) sel.0
          built d1 in
      let asked = less_fee-ok r.amount_includes_fee s.amount sel.3 amount b1 in
      subst (λ x. Spends r s x.0 fixed x.1) (ok_injective f2)
        (record {
          coins = sel.1;
          change = sel.2;
          the_fee = sel.3;
          eligible = q.eligible;
          inputs = spent' ∙ spent;
          outputs = paid ∙ ap (λ l. l ++ map output_id sel.2) kept;
          sent = amount' ∙ worth_kept ∙ sym built_amount;
          asked =
              subst (λ a. (if r.amount_includes_fee then a + sel.3 else a) ≡ s.amount)
                (sym built_amount) asked;
          covered =
              subst (λ a. a + sel.3 + amounts sel.2 ≤ worth sel.1) (sym built_amount)
                (covers_all r.amount_includes_fee amount part sel.3 s.amount total sel.1 sel.2
                  r.change_outputs w asked q.asked q.bounded q.counted q.covers changed);
          fee_fields = expect-ok (host.try_fee sel.3) ff c1 ∙ ap ok (sym built_fee);
          stored_fee = fee' ∙ fee_kept ∙ ap (λ f. some (host.fee_code f)) (sym built_fee);
          promised = λ f h. is_other_fee-same sel.3 f fixed same h;
        })
