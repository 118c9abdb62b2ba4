-- ===== src/Core.antt =====
-- What the wallet takes from the node's own crates (grin_core): the fee of a transaction by its
-- counts of inputs, outputs and kernels, its weight, and the constants of the chain.
use grin_wallet.Prelude.{ℕ}

pub record Core : Type 0 where
  -- `libtx::tx_fee`
  pub tx_fee : ℕ → ℕ → ℕ → ℕ
  -- `Transaction::weight_by_iok`
  pub weight_by_iok : ℕ → ℕ → ℕ → ℕ
  -- `global::max_tx_weight`
  pub max_tx_weight : ℕ
  -- `global::coinbase_maturity`
  pub coinbase_maturity : ℕ
  -- `consensus::reward`, of the fees of a block
  pub reward : ℕ → ℕ
