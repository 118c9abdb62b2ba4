-- ===== src/Exchange/Init.antt =====
-- The start of a transaction (`init_send_tx`, `issue_invoice_tx` and `process_invoice_tx` of
-- libwallet/src/api_impl/owner.rs, `estimate_send_tx` and `create_late_lock_context` of
-- libwallet/src/internal/tx.rs). The error of a wrong network leaves its address out.
pub mod LateLock
use Prim.Native.String.{String}
use grin_wallet.Prelude.{ℕ, Bool, true, false, Option, none, some, if◌then◌else◌}
use grin_wallet.Prelude.Result.{Result, ok, err, payment_proof_retrieval}
use grin_wallet.Prelude.Exec.{pure, lift, gets, ◌>>=◌, ◌>>◌}
use grin_wallet.Context.{Context, LateLockArgs}
use grin_wallet.Libtx.{Libtx}
use grin_wallet.Slates.{Slate, compact, fill_round_1}
use grin_wallet.Selection.{Request}
use grin_wallet.Selection.Fee.{select_coins_and_fee}
use grin_wallet.Backend.{Env, Op, in_batch, iter}
use grin_wallet.Backend.Contexts.{save_private_context}
use grin_wallet.Updater.Refresh.{NodeClient, refresh_outputs}
use grin_wallet.Exchange.{Host, id_of, new_context}
use grin_wallet.Exchange.Send.{expect, add_inputs_to_slate}
use grin_wallet.Exchange.Complete.{new_tx_slate}
use grin_wallet.Exchange.Receive.{dest_account}

-- The address of the recipient: whether it is of the wallet's network, and its key.
pub record RecipientAddress (lib : Libtx) : Type 0 where
  pub valid_network : Bool
  pub pub_key : lib.DalekPublicKey

-- `InitTxArgs`
pub record InitTxArgs (lib : Libtx) : Type 0 where
  pub src_acct_name : Option String
  pub amount : ℕ
  pub amount_includes_fee : Option Bool
  pub minimum_confirmations : ℕ
  pub max_outputs : ℕ
  pub num_change_outputs : ℕ
  pub selection_strategy_is_use_all : Bool
  pub target_slate_version : Option ℕ
  pub ttl_blocks : Option ℕ
  pub payment_proof_recipient_address : Option (RecipientAddress lib)
  pub estimate_only : Option Bool
  pub late_lock : Option Bool
  pub refresh_outputs_from_node : Bool

-- `unwrap_or(false)`
abbrev pub is_true : Option Bool → Bool
is_true none = false
is_true (some b) = b

module _ (env : Env) (lib : Libtx) (host : Host lib) where
  abbrev pub late_args : InitTxArgs lib → LateLockArgs
  late_args args = record {
    minimum_confirmations = args.minimum_confirmations;
    max_outputs = args.max_outputs;
    num_change_outputs = args.num_change_outputs;
    selection_strategy_is_use_all = args.selection_strategy_is_use_all;
    ttl_blocks = args.ttl_blocks;
  }

  abbrev pub request_of : InitTxArgs lib → Bool → ℕ → ℕ → Request
  request_of args amount_includes_fee current_height parent_key_id = record {
    amount = args.amount;
    amount_includes_fee = amount_includes_fee;
    current_height = current_height;
    minimum_confirmations = args.minimum_confirmations;
    max_outputs = args.max_outputs;
    change_outputs = args.num_change_outputs;
    select_all = args.selection_strategy_is_use_all;
    parent_key_id = parent_key_id;
  }

  abbrev pub refresh_if : NodeClient → Bool → ℕ → Op env (Unit {0})
  refresh_if node true parent_key_id = refresh_outputs env node parent_key_id false
  refresh_if node false parent_key_id = pure tt

  -- The total and the fee.
  unfoldable pub estimate_send_tx : NodeClient → InitTxArgs lib → ℕ → Op env (ℕ × ℕ)
  unfolding refresh_outputs select_coins_and_fee
  estimate_send_tx node args parent_key_id = do
    current_height ← lift host.get_chain_tip
    refresh_if node args.refresh_outputs_from_node parent_key_id
    w ← gets (λ w. w)
    selected ← lift (
        select_coins_and_fee env.core (iter env w)
          (request_of args (is_true args.amount_includes_fee) current_height parent_key_id))
    pure (selected.1, selected.3)

  unfoldable pub create_late_lock_context :
      NodeClient → Slate lib → ℕ → InitTxArgs lib → ℕ → Op env (Slate lib × Context)
  unfolding refresh_outputs select_coins_and_fee
  create_late_lock_context node s current_height args parent_key_id = do
    refresh_if node args.refresh_outputs_from_node parent_key_id
    w ← gets (λ w. w)
    selected ← lift (
        select_coins_and_fee env.core (iter env w)
          (request_of args (is_true args.amount_includes_fee) current_height parent_key_id))
    fee_fields ← lift (host.new_fee 0 selected.3)
    lift env.unlocked
    let context = record (new_context env lib host parent_key_id) {
      fee = some (host.fee_code fee_fields);
      amount = s.amount;
      late_lock_args = some (late_args args);
    }
    lift env.unlocked
    filled ← lift (fill_round_1 lib (record s { fee_fields = fee_fields }) context)
    pure (filled, context)

  abbrev check_address : Option (RecipientAddress lib) → Result (Option (RecipientAddress lib))
  check_address none = ok none
  check_address (some a) = if a.valid_network then ok (some a) else err payment_proof_retrieval

  abbrev pub with_version : Option ℕ → Slate lib → Slate lib
  with_version none s = s
  with_version (some v) s = record s { version = v }

  -- The addresses of the proof that is asked for, at the derivation path 0.
  abbrev pub ask_proof :
      ℕ → Option (RecipientAddress lib) → Slate lib → Context → Op env (Slate lib × Context)
  ask_proof parent_key_id none s context = pure (s, context)
  ask_proof parent_key_id (some a) s context = do
    lift env.unlocked
    key ← lift (host.address_from_derivation_path parent_key_id 0)
    sender_address ← lift (host.onion_address key)
    pure (
      record s {
        payment_proof = some (record {
          sender_address = sender_address;
          receiver_address = a.pub_key;
          receiver_signature = none;
        });
      },
      record context { payment_proof_derivation_index = some 0 },
    )

  abbrev pub remember : Slate lib → Context → Op env (Unit {0})
  remember s context = in_batch env (save_private_context env (id_of env lib host s) context)

  unfoldable pub estimated : NodeClient → InitTxArgs lib → ℕ → Slate lib → Op env (Slate lib)
  unfolding estimate_send_tx
  estimated node args parent_key_id s = do
    total_fee ← estimate_send_tx node args parent_key_id
    fee_fields ← lift (expect env lib host (host.try_fee total_fee.1))
    pure (record s { amount = total_fee.0; fee_fields = fee_fields })

  abbrev start :
      NodeClient → InitTxArgs lib → ℕ → Slate lib → ℕ → Bool → Op env (Slate lib × Context)
  start node args parent_key_id s height true =
      create_late_lock_context node s height args parent_key_id
  start node args parent_key_id s height false =
      add_inputs_to_slate env lib host node s
        (request_of args (is_true args.amount_includes_fee) height parent_key_id)
        args.refresh_outputs_from_node true

  unfoldable pub started :
      NodeClient
      → InitTxArgs lib
      → ℕ
      → Option (RecipientAddress lib)
      → Slate lib
      → Op env (Slate lib)
  unfolding create_late_lock_context add_inputs_to_slate save_private_context
  started node args parent_key_id address s = do
    height ← lift host.get_chain_tip
    built ← start node args parent_key_id s height (is_true args.late_lock)
    asked ← ask_proof parent_key_id address built.0 built.1
    remember asked.0 asked.1
    pure (compact lib asked.0)

  unfoldable pub init_send_tx : NodeClient → InitTxArgs lib → Op env (Slate lib)
  unfolding dest_account new_tx_slate estimated started
  init_send_tx node args = do
    address ← lift (check_address args.payment_proof_recipient_address)
    parent_key_id ← gets (dest_account env lib host args.src_acct_name)
    blank_slate ← new_tx_slate env lib host args.amount false 2 args.ttl_blocks
    let s : Slate lib = with_version args.target_slate_version blank_slate
    if is_true args.estimate_only
        then estimated node args parent_key_id s
        else started node args parent_key_id address s
