-- ===== src/Lib.antt =====
-- Grin wallet: the library that keeps a wallet's outputs, selects coins, follows the chain and
-- cancels transactions (libwallet).
--
-- The parts and the files that model them:
--   * Prelude: tests, lists, 64-bit words, results (`Result`), operations on a state that may fail
--     (`Exec`), relations that such operations keep (`Keeps`) and the stable sort (`Sort`).
--   * Bytes: big-endian numbers, for the keys of the database (libwallet/src/backend.rs).
--   * Store: the database (the crate grin_store) as an interface with laws; Store/Assoc is a concrete
--     one. Core: the fee, the weights and the constants of the crate grin_core, as parameters.
--   * Output: `OutputData`, its status and its marks (libwallet/src/types.rs); Output/Spending and
--     Output/Lifecycle hold the proofs.
--   * TxLog, Context: `TxLogEntry` and `Context` (libwallet/src/types.rs).
--   * Backend: `WalletBackend` and `WalletBatch` (libwallet/src/backend.rs). The record `Env` holds
--     what a call takes from its surroundings: the database, the constants, the keychain crate and the
--     clock. A context whose JSON form is longer than `MAX_CONTEXT_SIZE` is refused. A wallet is its tables and the active account; a batch (`in_batch`) discards its writes
--     when a step fails. Backend/Contexts has the private contexts with their masks; Blake2b and the
--     derivation of the root key are parameters.
--   * Keys: the accounts and the next keys (libwallet/src/internal/keys.rs).
--   * Selection: `select_coins`, `select_coins_and_fee`, `inputs_and_change` and what they call
--     (libwallet/src/internal/selection.rs); Selection/Fee has the fee loop, Selection/Change the
--     change outputs, the other files below Selection the proofs.
--   * Updater: `retrieve_outputs`, `retrieve_txs` and `map_wallet_outputs` (Query, Filter),
--     `retrieve_info` (Info), `cancel_tx_and_outputs` and `cancel_tx` (Cancel), `build_coinbase`
--     (Coinbase), `refresh_outputs` and what it calls (Refresh), of libwallet/src/internal/updater.rs and libwallet/src/internal/tx.rs.
--     The selection reads the outputs of the backend; the updater reads and writes them, and asks the
--     node, which is a parameter (`NodeClient`).
--   * Wire, Slate: readers and writers of bytes, the slate of version 4
--     (libwallet/src/slate_versions/v4.rs) and its binary form, Slate/Binary
--     (libwallet/src/slate_versions/v4_bin.rs).
--   * Libtx: the crates of transactions, curve and signatures, as parameters (`Libtx`), with the laws of
--     a transaction's parts. Slates: the slate of libwallet/src/slate.rs; Slates/Signing has the second
--     round and the end of a transaction, Slates/Version the conversions to and from version 4,
--     Slates/Participants the proofs on the first round.
--   * Exchange: what the parties do with a slate. Exchange/Receive is `receive_tx`
--     (libwallet/src/api_impl/foreign.rs) with `build_recipient_output` and `add_output_to_slate`;
--     `Host` holds what else these calls take from their surroundings. Exchange/Send is the sender
--     (`build_send_tx`, `add_inputs_to_slate`), Exchange/Lock is `lock_tx_context`,
--     Exchange/Init is `init_send_tx` and Exchange/Invoice the flow of invoices,
--     Exchange/Proof is about payment proofs (Exchange/Proof/Export is `verify_payment_proof` and
--     `retrieve_payment_proof`, from the transactions that it finds on),
--     Exchange/Complete completes a transaction (`repopulate_tx`, `complete_tx`, `update_stored_tx`,
--     `verify_slate_payment_proof`), and Exchange/Finalize is `finalize_tx` with `tx_lock_outputs`. The
--     identifiers that tests draw from a counter are left out.
--   * Armor: the armor of slatepacks (libwallet/src/slatepack/armor.rs).
--   * Examples: a small wallet and a slate, and the theorems applied to it.
--
-- Conventions. Amounts and heights are natural numbers, with the wrap-around of 64 bits (32 bits for
-- identifiers of log entries and child numbers) written out. Identifiers and commitments are the
-- numbers that their bytes spell; times are seconds. A panic of the code is the result `panic`. Hash
-- maps are lists in the order of their iteration.
--
-- Fuel. The loop of `select_coins_and_fee` is the only one that is not structural: `raise_loop` has
-- two rounds more than there are eligible outputs, and running out is the result `stuck`.
--
-- Not modelled: the JSON form of slates, slatepacks below their armor, scan and restore, mixnet
-- swaps, the rest of the owner interface, and all input, output and cryptography (node clients, Tor,
-- seeds, RPC servers, command line). Failures to read a stored record, which the code logs and skips,
-- do not arise in the model.
pub mod Armor
pub mod Backend
pub mod Bytes
pub mod Context
pub mod Core
pub mod Examples
pub mod Exchange
pub mod Keys
pub mod Libtx
pub mod Output
pub mod Prelude
pub mod Selection
pub mod Slate
pub mod Slates
pub mod Store
pub mod TxLog
pub mod Updater
pub mod Wire
