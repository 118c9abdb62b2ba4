-- ===== src/Exchange.antt =====
-- Transactions between wallets: what the sender and the recipient do with a slate
-- (libwallet/src/internal/selection.rs, libwallet/src/internal/tx.rs and
-- libwallet/src/api_impl/foreign.rs), over the wallet and the crates of transactions. An operation
-- that changes the slate returns the new one.
pub mod Complete
pub mod Finalize
pub mod Init
pub mod Invoice
pub mod Lock
pub mod Misfiled
pub mod Proof
pub mod Send
pub mod Receive
use grin_wallet.Prelude.{
  ℕ, Bool, true, false, Option, none, some, List, ◌++◌, ltb, ◌==◌, not, ◌&&◌, if◌then◌else◌, find?,
  leb, opt_eq, ◌≡◌, ◌↔◌,
}
use grin_wallet.Prelude.Result.{Result, ok, err, panic, transaction_expired, backend}
use grin_wallet.Prelude.Exec.{pure, lift, raise, gets, ◌>>=◌, ◌>>◌}
use grin_wallet.Bytes.{Bytes, be_bytes}
use grin_wallet.TxLog.{TxLogEntry}
use grin_wallet.Context.{Context, with_excess}
use grin_wallet.Libtx.{Libtx}
use grin_wallet.Slates.{Slate, calc_excess}
use grin_wallet.Backend.{
  Env, Wallet, Op, in_batch, save_tx_log_entry, tx_log_iter, last_confirmed_height,
}

-- What a call takes beside the database and the transactions: the numbers that stand for
-- commitments, fees, addresses and signatures in the wallet's records, the random keys of
-- `Context::new`, the keys of addresses (libwallet/src/address.rs), the signatures of ed25519_dalek,
-- and the files of transactions.
pub record Host (lib : Libtx) : Type 0 where
  pub commitment_code : lib.Commitment → ℕ
  pub fee_code : lib.FeeFields → ℕ
  pub fee_of : ℕ → lib.FeeFields
  pub address_code : lib.DalekPublicKey → ℕ
  pub signature_code : lib.DalekSignature → ℕ
  -- the commitments, addresses and signatures of such numbers
  pub commitment_of : ℕ → lib.Commitment
  pub address_of : ℕ → lib.DalekPublicKey
  pub signature_of : ℕ → lib.DalekSignature
  pub read_address : (a : lib.DalekPublicKey) → address_of (address_code a) ≡ a
  -- `==` of two public keys of ed25519_dalek
  pub address_eq : lib.DalekPublicKey → lib.DalekPublicKey → Bool
  pub address_eq_iff : (a b : lib.DalekPublicKey) → (address_eq a b ≡ true) ↔ (a ≡ b)
  -- `u64::try_into` and `FeeFields::as_opt`
  pub try_fee : ℕ → Result lib.FeeFields
  pub as_opt : lib.FeeFields → Option lib.FeeFields
  -- `FeeFields::new` of a shift and a fee
  pub new_fee : ℕ → ℕ → Result lib.FeeFields
  -- `valid_header_version` of a height and a version
  pub valid_header_version : ℕ → ℕ → Bool
  -- the key and nonce that `Context::new` draws
  pub sec_key : Bytes
  pub sec_nonce : Bytes
  -- `address_from_derivation_path`, and `OnionV3Address::from_private` with `to_ed25519`
  pub address_from_derivation_path : ℕ → ℕ → Result Bytes
  pub onion_address : Bytes → Result lib.DalekPublicKey
  -- the public key of an ed25519_dalek key
  pub public_key : Bytes → lib.DalekPublicKey
  pub commitment_bytes : lib.Commitment → Bytes
  pub address_bytes : lib.DalekPublicKey → Bytes
  pub sign : Bytes → Bytes → lib.DalekSignature
  pub verify : lib.DalekPublicKey → Bytes → lib.DalekSignature → Bool
  -- `store_tx`
  pub store_tx : ℕ → lib.Transaction → Result (Unit {0})
  -- the node's `post_tx`, and `get_chain_tip`
  pub post_tx : lib.Transaction → Bool → Result (Unit {0})
  pub get_chain_tip : Result ℕ

abbrev pub map_option : {A B : Type 0} → (A → B) → Option A → Option B
map_option f none = none
map_option f (some a) = some (f a)

-- `unwrap`
abbrev pub unwrapped : {A : Type 0} → Option A → Result A
unwrapped none = panic
unwrapped (some c) = ok c

-- `match n { 0 => None, n => Some(n) }`
abbrev pub ttl_option : ℕ → Option ℕ
ttl_option n = if n == 0 then none else some n

module _ (env : Env) (lib : Libtx) (host : Host lib) where
  -- `if let Ok(e) = slate.calc_excess(..) { t.kernel_excess = Some(e) }`
  abbrev pub excess_or : Option ℕ → Result lib.Commitment → Option ℕ
  excess_or d (ok e) = some (host.commitment_code e)
  excess_or d _ = d

  -- The name of the private context of a slate: the 16 bytes of its identifier.
  abbrev pub id_of : Slate lib → Bytes
  id_of s = be_bytes 16 s.id

  -- `Context::new`
  abbrev pub new_context : ℕ → Context
  new_context parent_key_id = with_excess host.sec_key host.sec_nonce parent_key_id

  abbrev pub is_expired : Slate lib → Wallet env → Bool
  is_expired s w =
      not (s.ttl_cutoff_height == 0) && leb s.ttl_cutoff_height (last_confirmed_height env w)

  unfoldable pub check_ttl : Slate lib → Op env (Unit {0})
  check_ttl s w = if is_expired s w then (err transaction_expired, w) else (ok tt, w)

  abbrev pub save_found : ℕ → Slate lib → Option TxLogEntry → Op env (Unit {0})
  save_found parent_key_id s none = raise backend
  save_found parent_key_id s (some tx) =
      in_batch env
        (save_tx_log_entry env (record tx { tx_slate_state = some s.state }) parent_key_id)

  -- The first entry of the slate, of whatever account, is saved under the account of the call.
  unfoldable pub update_tx_slate_state : ℕ → Slate lib → Op env (Unit {0})
  update_tx_slate_state parent_key_id s w =
      save_found parent_key_id s
        (find? (λ tx. opt_eq tx.tx_slate_id (some s.id)) (tx_log_iter env w)) w

  -- `payment_proof_message`
  unfoldable pub payment_proof_message : ℕ → lib.Commitment → lib.DalekPublicKey → Bytes
  payment_proof_message amount kernel_commitment sender_address =
      be_bytes 8 amount
      ++ (host.commitment_bytes kernel_commitment ++ host.address_bytes sender_address)

  unfoldable pub create_payment_proof_signature :
      ℕ → lib.Commitment → lib.DalekPublicKey → Bytes → lib.DalekSignature
  unfolding payment_proof_message
  create_payment_proof_signature amount kernel_commitment sender_address sec_key =
      host.sign sec_key (payment_proof_message amount kernel_commitment sender_address)
