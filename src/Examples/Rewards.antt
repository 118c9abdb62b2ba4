-- ===== src/Examples/Rewards.antt =====
-- The theorem on rewards at a concrete wallet.
use grin_wallet.Prelude.{ℕ, ◌≡◌, refl, Bool, true, false, none, some}
use grin_wallet.Prelude.Result.{Result, ok}
use grin_wallet.Bytes.{be_bytes, bytes_eq}
use grin_wallet.Store.Assoc.{lookup}
use grin_wallet.Slate.{plain}
use grin_wallet.Libtx.{Output, TxKernel, plain as plain_kernel}
use grin_wallet.Backend.{save, get_output, output_key}
use grin_wallet.Keys.{retrieve_existing_key}
use grin_wallet.Updater.Coinbase.{
  CbData, Rewarded, build_coinbase, coinbase_at, coinbase_key, build_coinbase_overwrites,
}
use grin_wallet.Examples.{env, wallet, free}
use grin_wallet.Examples.Slates.{formats}
use grin_wallet.Examples.Toy.{toy}

abbrev reward_output : ℕ → ℕ → Bool → Result (Output formats × TxKernel formats)
reward_output k fees test = ok (
  record { features = plain; commit = true; proof = true },
  record { features = plain_kernel true; excess = false; excess_sig = false },
)

abbrev rewarded : CbData toy
rewarded = record {
  output = record { features = plain; commit = true; proof = true };
  kernel = record { features = plain_kernel true; excess = false; excess_sig = false };
  key_id = some 11;
}

built :
    (build_coinbase env toy reward_output
      (record { fees = 4; height = 30; key_id = some 11 })
      false
      wallet).0
    ≡ ok rewarded
unfolding build_coinbase coinbase_at coinbase_key retrieve_existing_key get_output save output_key
    be_bytes bytes_eq lookup
built = refl

holds_free : env.get wallet.outputs (output_key 11 none) ≡ some free
unfolding output_key be_bytes bytes_eq lookup
holds_free = refl

-- The unspent output 11 gives way to a reward.
build_coinbase_overwrites_example :
    (rewarded.key_id ≡ some 11)
    × Rewarded env toy reward_output
        (record { fees = 4; height = 30; key_id = some 11 })
        wallet
        11
        (build_coinbase env toy reward_output
          (record { fees = 4; height = 30; key_id = some 11 })
          false
          wallet).1
build_coinbase_overwrites_example =
    build_coinbase_overwrites env toy reward_output 4 30 11 false wallet free rewarded holds_free
      refl built
