-- ===== src/Updater/Coinbase.antt =====
-- Rewards of blocks (`build_coinbase` and `receive_coinbase` of libwallet/src/internal/updater.rs).
-- The output and the kernel of a reward are made by the crate grin_core, a parameter.
use mathlib.Core.Path.{subst}
use grin_wallet.Prelude.{
  ℕ, ◌≡◌, refl, sym, ◌∙◌, ap, Bool, true, Option, none, some, if◌then◌else◌, add64, arith,
}
use grin_wallet.Prelude.Result.{Result, ok, err, panic, stuck, ok_injective}
use grin_wallet.Prelude.Exec.{lift, continue, ◌>>=◌, ◌>>◌}
use grin_wallet.Prelude.Triple.{Triple, Triple->>=}
use grin_wallet.Bytes.{Bytes, bytes_eq}
use grin_wallet.Output.{OutputData, unconfirmed}
use grin_wallet.Libtx.{Libtx, TxKernel, Output}
use grin_wallet.Backend.{
  Env, Wallet, Op, in_batch, save, get_output, calc_commit_for_cache, output_key,
}
use grin_wallet.Backend.Triples.{Triple-in_batch, Triple-result}
use grin_wallet.Keys.{next_available_key, retrieve_existing_key}

-- `BlockFees`
pub record BlockFees : Type 0 where
  pub fees : ℕ
  pub height : ℕ
  pub key_id : Option ℕ

-- `CbData`
pub record CbData (lib : Libtx) : Type 0 where
  pub output : Output lib.ext
  pub kernel : TxKernel lib.ext
  pub key_id : Option ℕ

module _ (env : Env) (lib : Libtx)
    (reward_output : ℕ → ℕ → Bool → Result (Output lib.ext × TxKernel lib.ext)) where
  -- The key of an output that exists, else a new one.
  abbrev existing_or_next : Result (ℕ × ℕ) → Op env ℕ
  existing_or_next (ok k) w = (ok k.0, w)
  existing_or_next (err e) w = next_available_key env w
  existing_or_next panic w = (panic, w)
  existing_or_next stuck w = (stuck, w)

  unfoldable pub coinbase_key : Option ℕ → Op env ℕ
  unfolding retrieve_existing_key
  coinbase_key none w = next_available_key env w
  coinbase_key (some k) w = existing_or_next (retrieve_existing_key env k none w).0 w

  abbrev pub coinbase_output : BlockFees → ℕ → ℕ → Option ℕ → OutputData
  coinbase_output block_fees parent_key_id key_id commit = record {
    root_key_id = parent_key_id;
    key_id = key_id;
    n_child = env.last_path_index key_id;
    commit = commit;
    mmr_index = none;
    value = env.core.reward block_fees.fees;
    status = unconfirmed;
    height = block_fees.height;
    lock_height = add64 block_fees.height env.core.coinbase_maturity;
    is_coinbase = true;
    tx_log_entry = none;
  }

  abbrev cb_data : ℕ → Result (Output lib.ext × TxKernel lib.ext) → Result (CbData lib)
  cb_data key_id (ok built) =
      ok (record { output = built.0; kernel = built.1; key_id = some key_id })
  cb_data key_id (err e) = err e
  cb_data key_id panic = panic
  cb_data key_id stuck = stuck

  -- The output is written before the reward is made.
  unfoldable pub coinbase_at : BlockFees → Bool → ℕ → ℕ → Op env (CbData lib)
  coinbase_at block_fees test_mode parent_key_id key_id = do
    commit ← calc_commit_for_cache env (env.core.reward block_fees.fees) key_id
    in_batch env (save env (coinbase_output block_fees parent_key_id key_id commit))
    lift env.unlocked
    lift (cb_data key_id (reward_output key_id block_fees.fees test_mode))

  unfoldable pub build_coinbase : BlockFees → Bool → Op env (CbData lib)
  unfolding coinbase_key coinbase_at
  build_coinbase block_fees test_mode w =
      (coinbase_key block_fees.key_id >>= coinbase_at block_fees test_mode w.parent_key_id) w

  calc_commit_still :
      (amount id : ℕ) (w : Wallet env) → (calc_commit_for_cache env amount id w).1 ≡ w
  calc_commit_still amount id w = ground arith

  -- The output of a reward that is not yet on the chain.
  pub record IsReward (block_fees : BlockFees) (parent_key_id k : ℕ) (o : OutputData) : Type 0 where
    pub account : o.root_key_id ≡ parent_key_id
    pub own_key : o.key_id ≡ k
    pub child : o.n_child ≡ env.last_path_index k
    pub no_index : o.mmr_index ≡ none
    pub worth : o.value ≡ env.core.reward block_fees.fees
    pub waits : o.status ≡ unconfirmed
    pub at_height : o.height ≡ block_fees.height
    pub matures : o.lock_height ≡ add64 block_fees.height env.core.coinbase_maturity
    pub of_block : o.is_coinbase ≡ true
    pub no_entry : o.tx_log_entry ≡ none

  coinbase_output-IsReward :
      (f : BlockFees) (parent_key_id k : ℕ) (commit : Option ℕ)
      → IsReward f parent_key_id k (coinbase_output f parent_key_id k commit)
  coinbase_output-IsReward f parent_key_id k commit = record {
    account = refl;
    own_key = refl;
    child = refl;
    no_index = refl;
    worth = refl;
    waits = refl;
    at_height = refl;
    matures = refl;
    of_block = refl;
    no_entry = refl;
  }

  -- The outputs are those before, but for the reward.
  abbrev pub Rewarded : BlockFees → Wallet env → ℕ → Wallet env → Type 0
  Rewarded block_fees w k w' =
      (o : OutputData) × IsReward block_fees w.parent_key_id k o
      × ((j : Bytes)
          → env.get w'.outputs j
            ≡ (if bytes_eq (output_key k none) j then some o else env.get w.outputs j))

  cb_data-key_id :
      (k : ℕ) (r : Result (Output lib.ext × TxKernel lib.ext)) (d : CbData lib)
      → cb_data k r ≡ ok d
      → d.key_id ≡ some k
  cb_data-key_id k (ok b) d e = ap (λ x. x.key_id) (sym (ok_injective e))
  cb_data-key_id k (err x) d e = cc
  cb_data-key_id k panic d e = cc
  cb_data-key_id k stuck d e = cc

  coinbase_at-Rewarded :
      (f : BlockFees) (test : Bool) (k : ℕ) (w : Wallet env)
      → Triple
          (λ v. v ≡ w)
          (coinbase_at f test w.parent_key_id k)
          (λ d v. (d.key_id ≡ some k) × Rewarded f w k v)
  unfolding coinbase_at save
  coinbase_at-Rewarded f test k w =
      let R = λ (d : CbData lib) (v : Wallet env). (d.key_id ≡ some k) × Rewarded f w k v in
      Triple->>= (λ v. v ≡ w) (λ _ v. v ≡ w) R
        (calc_commit_for_cache env (env.core.reward f.fees) k) _
        (λ v p c e. calc_commit_still (env.core.reward f.fees) k v ∙ p)
        (λ commit.
          Triple->>= (λ v. v ≡ w) (λ _ v. Rewarded f w k v) R
            (in_batch env (save env (coinbase_output f w.parent_key_id k commit))) _
            (Triple-in_batch env (λ v. v ≡ w)
              (save env (coinbase_output f w.parent_key_id k commit)) (λ _ v. Rewarded f w k v)
              (λ v p u e. (
                coinbase_output f w.parent_key_id k commit,
                coinbase_output-IsReward f w.parent_key_id k commit,
                λ j.
                    env.get-put v.outputs (output_key k none) j _
                    ∙ ap
                        (λ z.
                          if bytes_eq (output_key k none) j
                          then some (coinbase_output f w.parent_key_id k commit)
                          else env.get z.outputs j)
                        p,
              )))
            (λ u.
              Triple->>= (Rewarded f w k) (λ _ v. Rewarded f w k v) R (lift env.unlocked) _
                (λ v p u e. p)
                (λ u.
                  Triple-result env (Rewarded f w k) (cb_data k (reward_output k f.fees test)) R
                    (λ v p d e. (cb_data-key_id k (reward_output k f.fees test) d e, p)))))

  coinbase_key_existing :
      (w : Wallet env) (k : ℕ) (o : OutputData)
      → env.get w.outputs (output_key k none) ≡ some o
      → coinbase_key (some k) w ≡ (ok o.key_id, w)
  unfolding coinbase_key get_output
  coinbase_key_existing w k o held = rw held refl

  -- A reward for the key of an output takes its place, whatever the output was: where the wallet
  -- holds an output under its own key and the reward is built for that key, the key then
  -- holds an unconfirmed coinbase of the account, of the value of the reward, at the height of the
  -- block and locked until it matures, and every other key what it held.
  pub build_coinbase_overwrites :
      (fees height k : ℕ) (test : Bool) (w : Wallet env) (o : OutputData) (d : CbData lib)
      → env.get w.outputs (output_key k none) ≡ some o
      → o.key_id ≡ k
      → (build_coinbase (record { fees = fees; height = height; key_id = some k }) test w).0 ≡ ok d
      → (d.key_id ≡ some k)
        × Rewarded
            (record { fees = fees; height = height; key_id = some k })
            w
            k
            (build_coinbase (record { fees = fees; height = height; key_id = some k }) test w).1
  unfolding build_coinbase
  build_coinbase_overwrites fees height k test w o d held own e =
      let f : BlockFees = record { fees = fees; height = height; key_id = some k } in
      let at = coinbase_at f test w.parent_key_id in
      let same : build_coinbase f test w ≡ at k w =
        ap (λ t. continue t.0 at t.1) (coinbase_key_existing w k o held) ∙ ap (λ i. at i w) own in
      subst (λ v. (d.key_id ≡ some k) × Rewarded f w k v) (sym (ap (λ t. t.1) same))
        (coinbase_at-Rewarded f test k w w refl d (sym (ap (λ t. t.0) same) ∙ e))
