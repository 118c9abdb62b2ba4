-- ===== src/Exchange/Invoice.antt =====
-- Invoices (`issue_invoice_tx` and `process_invoice_tx` of libwallet/src/api_impl/owner.rs). The
-- error for a slate that was received or cancelled leaves its identifier out.
use Prim.Native.String.{String}
use grin_wallet.Prelude.{
  ℕ, Bool, true, false, Option, none, some, List, [], ◌∷◌, ◌++◌, if◌then◌else◌, add64,
}
use grin_wallet.Prelude.Result.{
  Result, ok, err, panic, stuck, transaction_already_received, transaction_was_cancelled,
}
use grin_wallet.Prelude.Exec.{pure, lift, gets, ◌>>=◌, ◌>>◌}
use grin_wallet.TxLog.{TxLogEntry, is_type, tx_sent, tx_sent_cancelled, invoice2}
use grin_wallet.Context.{Context}
use grin_wallet.Libtx.{Libtx}
use grin_wallet.Slates.{Slate, compact, adjust_offset, calc_excess, remove_other_sigdata}
use grin_wallet.Backend.{Env, Op, tx_log_iter}
use grin_wallet.Backend.Contexts.{get_private_context}
use grin_wallet.Updater.Query.{listed_txs}
use grin_wallet.Updater.Refresh.{NodeClient}
use grin_wallet.Exchange.{Host, id_of, check_ttl}
use grin_wallet.Exchange.Send.{add_inputs_to_slate}
use grin_wallet.Exchange.Complete.{new_tx_slate, repopulate_tx}
use grin_wallet.Exchange.Init.{InitTxArgs, request_of, with_version, remember}
use grin_wallet.Exchange.Receive.{add_output_to_slate, dest_account}

-- `IssueInvoiceTxArgs`
pub record IssueInvoiceTxArgs : Type 0 where
  pub dest_acct_name : Option String
  pub amount : ℕ
  pub target_slate_version : Option ℕ

module _ (env : Env) (lib : Libtx) (host : Host lib) where
  unfoldable pub issue_invoice_tx : IssueInvoiceTxArgs → Op env (Slate lib)
  unfolding dest_account new_tx_slate add_output_to_slate
  issue_invoice_tx args = do
    parent_key_id ← gets (dest_account env lib host args.dest_acct_name)
    s ← new_tx_slate env lib host args.amount true 2 none
    height ← lift host.get_chain_tip
    added ← add_output_to_slate env lib host s height parent_key_id true
    let s' : Slate lib = with_version env lib host args.target_slate_version added.0
    remember env lib host s' added.1
    pure (compact lib s')

  -- The first entry that was sent or cancelled decides.
  unfoldable pub not_sent : List TxLogEntry → Result (Unit {0})
  not_sent [] = ok tt
  not_sent (t ∷ ts) =
      if is_type t.tx_type tx_sent
      then err transaction_already_received
      else if is_type t.tx_type tx_sent_cancelled
      then err transaction_was_cancelled
      else not_sent ts

  -- A failure is a value.
  abbrev attempt : {A : Type 0} → Op env A → Op env (Option A)
  attempt m w = caught (m w).0 w
    where
      caught : {A : Type 0} → Result A → Op env (Option A)
      caught (ok a) w = (ok (some a), w)
      caught (err e) w = (ok none, w)
      caught panic w = (panic, w)
      caught stuck w = (stuck, w)

  -- What the offset is corrected by: nothing where the wallet sends to itself.
  abbrev offset_context : Context → Option Context → Context
  offset_context context none = context
  offset_context context (some c) = record context { input_ids = []; output_ids = [] }

  -- The contexts of both sides, where the wallet sends to itself.
  abbrev pub merged : Context → Option Context → Context
  merged context none = context
  merged context (some c) = record context {
    initial_sec_key = c.initial_sec_key;
    initial_sec_nonce = c.initial_sec_nonce;
    fee = c.fee;
    amount = c.amount;
    output_ids = context.output_ids ++ c.output_ids;
    input_ids = context.input_ids ++ c.input_ids;
  }

  abbrev new_ttl : ℕ → Option ℕ → Slate lib → Slate lib
  new_ttl height none s = s
  new_ttl height (some b) s = record s { ttl_cutoff_height = add64 height b }

  -- The steps once the slate is known to be a new one.
  unfoldable pub pay_invoice : NodeClient → Slate lib → InitTxArgs lib → ℕ → Op env (Slate lib)
  unfolding get_private_context add_inputs_to_slate adjust_offset calc_excess repopulate_tx
      remove_other_sigdata
  pay_invoice node s args parent_key_id = do
    height ← lift host.get_chain_tip
    let fresh : Slate lib = record (new_ttl height args.ttl_blocks s) {
      tx = some lib.empty_transaction;
    }
    own ← attempt (get_private_context env (id_of env lib host s))
    built ←
        add_inputs_to_slate env lib host node fresh
          (request_of env lib host args false height parent_key_id) args.refresh_outputs_from_node
          false
    lift env.unlocked
    moved ← lift (adjust_offset lib built.0 (offset_context built.1 own))
    excess ← lift (calc_excess lib moved)
    let context =
        merged (record (built.1) { calculated_excess = some (host.commitment_code excess) }) own
    whole ← repopulate_tx env lib host moved context false
    remember env lib host s context
    mine ←
        lift
          (remove_other_sigdata lib (record whole { amount = 0 }) context.sec_nonce context.sec_key)
    pure (record mine { state = invoice2 })

  unfoldable pub process_invoice_tx :
      NodeClient → Slate lib → InitTxArgs lib → Bool → Op env (Slate lib)
  unfolding check_ttl dest_account listed_txs not_sent pay_invoice
  process_invoice_tx node s args use_test_rng = do
    check_ttl env lib host s
    parent_key_id ← gets (dest_account env lib host args.src_acct_name)
    txs ←
        gets
          (λ w. listed_txs (tx_log_iter env w) none (some s.id) (some parent_key_id) use_test_rng)
    lift (not_sent txs)
    pay_invoice node s args parent_key_id
