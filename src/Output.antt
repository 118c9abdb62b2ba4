-- ===== src/Output.antt =====
-- Outputs that the wallet tracks, their status and its changes (libwallet/src/types.rs).
-- An `Identifier` (17 bytes) and a commitment (33 bytes) are the numbers that their bytes spell.
pub mod Spending
pub mod Lifecycle
use grin_wallet.Prelude.{
  ℕ, ◌+◌, ◌-◌, Bool, true, false, Option, ◌&&◌, ◌||◌, ltb, leb, ◌==◌, if◌then◌else◌, add64, sub64,
}

pub data OutputStatus : Type 0 where
  unconfirmed unspent locked spent reverted : OutputStatus

abbrev pub is_status : OutputStatus → OutputStatus → Bool
is_status unconfirmed unconfirmed = true
is_status unspent unspent = true
is_status locked locked = true
is_status spent spent = true
is_status reverted reverted = true
is_status _ _ = false

pub record OutputData : Type 0 where
  pub root_key_id : ℕ
  pub key_id : ℕ
  pub n_child : ℕ
  pub commit : Option ℕ
  pub mmr_index : Option ℕ
  pub value : ℕ
  pub status : OutputStatus
  pub height : ℕ
  pub lock_height : ℕ
  pub is_coinbase : Bool
  pub tx_log_entry : Option ℕ

unfoldable pub lock : OutputData → OutputData
lock o = record o { status = locked }

unfoldable pub num_confirmations : OutputData → ℕ → ℕ
unfolding add64 sub64
num_confirmations o current_height =
    if ltb current_height o.height
    then 0
    else if is_status o.status unconfirmed
    then 0
    else add64 1 (sub64 current_height o.height)

unfoldable pub eligible_to_spend : OutputData → ℕ → ℕ → Bool
unfolding num_confirmations
eligible_to_spend o current_height minimum_confirmations =
    if (is_status o.status spent || is_status o.status locked)
      || (is_status o.status unconfirmed && o.is_coinbase)
      || ltb current_height o.lock_height
    then false
    else (is_status o.status unspent
        && leb minimum_confirmations (num_confirmations o current_height))
      || (is_status o.status unconfirmed && (minimum_confirmations == 0))

abbrev unspent_of : OutputStatus → OutputStatus
unspent_of unconfirmed = unspent
unspent_of reverted = unspent
unspent_of s = s

abbrev spent_of : OutputStatus → OutputStatus
spent_of unspent = spent
spent_of locked = spent
spent_of s = s

abbrev reverted_of : OutputStatus → OutputStatus
reverted_of unspent = reverted
reverted_of s = s

unfoldable pub mark_unspent : OutputData → OutputData
mark_unspent o = record o { status = unspent_of o.status }

unfoldable pub mark_spent : OutputData → OutputData
mark_spent o = record o { status = spent_of o.status }

unfoldable pub mark_reverted : OutputData → OutputData
mark_reverted o = record o { status = reverted_of o.status }
