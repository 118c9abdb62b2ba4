-- ===== src/Exchange/Send/Ids.antt =====
-- The inputs and outputs of a context that is built (`build_send_tx` of
-- libwallet/src/internal/selection.rs).
use mathlib.Core.List.{append_assoc, append-nil}
use grin_wallet.Prelude.{ℕ, ◌≡◌, refl, sym, ◌∙◌, ap, Option, List, [], ◌∷◌, ◌++◌, map}
use grin_wallet.Prelude.Result.{ok, ok_injective}
use grin_wallet.Prelude.Exec.{exec-eq-ok}
use grin_wallet.Output.{OutputData}
use grin_wallet.Context.{Context, add_input, add_output}
use grin_wallet.Libtx.{Libtx}
use grin_wallet.Selection.Change.{ChangeOutput}
use grin_wallet.Backend.{Env, Wallet, calc_commit_for_cache}
use grin_wallet.Exchange.{Host}
use grin_wallet.Exchange.Send.{add_inputs, add_outputs}

abbrev pub input_id : OutputData → ℕ × Option ℕ × ℕ
input_id o = (o.key_id, o.mmr_index, o.value)

abbrev pub output_id : ChangeOutput → ℕ × Option ℕ × ℕ
output_id c = (c.id, c.mmr_index, c.amount)

module _ (env : Env) (lib : Libtx) (host : Host lib) where
  pub add_inputs-ids :
      (coins : List OutputData) (c : Context)
      → ((add_inputs env lib host coins c).input_ids ≡ c.input_ids ++ map input_id coins)
        × ((add_inputs env lib host coins c).output_ids ≡ c.output_ids)
        × ((add_inputs env lib host coins c).amount ≡ c.amount)
        × ((add_inputs env lib host coins c).fee ≡ c.fee)
  unfolding add_inputs add_input
  add_inputs-ids [] c = (sym (append-nil c.input_ids), refl, refl, refl)
  add_inputs-ids (o ∷ os) c =
      let (i, j, k, l) = add_inputs-ids os (add_input c o.key_id o.mmr_index o.value) in
      (i ∙ append_assoc c.input_ids (input_id o ∷ []) (map input_id os), j, k, l)

  pub add_outputs-ids :
      (cs : List ChangeOutput) (c d : Context) (w : Wallet env)
      → (add_outputs env lib host cs c w).0 ≡ ok d
      → (d.output_ids ≡ c.output_ids ++ map output_id cs)
        × (d.input_ids ≡ c.input_ids)
        × (d.amount ≡ c.amount)
        × (d.fee ≡ c.fee)
  unfolding add_outputs add_output
  add_outputs-ids [] c d w e =
      let same = sym (ok_injective e) in
      (
        ap (λ x. x.output_ids) same ∙ sym (append-nil c.output_ids),
        ap (λ x. x.input_ids) same,
        ap (λ x. x.amount) same,
        ap (λ x. x.fee) same,
      )
  add_outputs-ids (o ∷ os) c d w e =
      let (commit, f, g, h) = exec-eq-ok (calc_commit_for_cache env o.amount o.id) _ w e in
      let (i, j, k, l) =
        add_outputs-ids os (add_output c o.id o.mmr_index o.amount) d
          (calc_commit_for_cache env o.amount o.id w).1 g in
      (i ∙ append_assoc c.output_ids (output_id o ∷ []) (map output_id os), j, k, l)
