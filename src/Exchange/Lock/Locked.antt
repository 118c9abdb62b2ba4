-- ===== src/Exchange/Lock/Locked.antt =====
-- What a wallet holds after its outputs were locked for a transaction (`lock_tx_context` of
-- libwallet/src/internal/selection.rs).
use mathlib.Core.Path.{subst}
use mathlib.Core.List.{Memᴰ}
use mathlib.Core.List.Memᴰ
use grin_wallet.Prelude.{
  ℕ, ◌≡◌, refl, sym, ◌∙◌, ap, ◌⊎◌, inl, inr, Option, none, some, List, [], ◌∷◌, Bool-cases,
  some_injective, if◌then◌else◌, add64,
}
use grin_wallet.Prelude.Result.{ok, ok_or, not_found, ok_injective}
use grin_wallet.Prelude.Triple.{Triple, Triple->>=}
use grin_wallet.Bytes.{Bytes, bytes_eq, bytes_eq→eq, bytes_eq_refl}
use grin_wallet.Output.{OutputData, lock}
use grin_wallet.Libtx.{Libtx}
use grin_wallet.Backend.{Env, Wallet, get_output, save, lock_output, output_key}
use grin_wallet.Updater.Cancel.Restored.{Keyed, key_of}
use grin_wallet.Exchange.{Host}
use grin_wallet.Exchange.Lock.{lock_inputs}

ok_or-some : {A : Type 0} (o : Option A) (a : A) → ok_or o not_found ≡ ok a → o ≡ some a
ok_or-some none a e = cc
ok_or-some (some b) a e = ap some (ok_injective e)

module _ (env : Env) (w0 : Wallet env) (log_id : ℕ) where
  -- An output that is locked for the log entry.
  abbrev pub locked_for : OutputData → OutputData
  locked_for o = lock (record o { tx_log_entry = some log_id })

  -- What a key holds is the output that it held, locked.
  abbrev pub Now : Bytes → Option OutputData → Type 0
  Now k r = (o : OutputData) × (env.get w0.outputs k ≡ some o) × (r ≡ some (locked_for o))

  -- It is what it held, or the output that it held, locked.
  abbrev pub SameOrNow : Bytes → Option OutputData → Type 0
  SameOrNow k r = (r ≡ env.get w0.outputs k) ⊎ Now k r

  abbrev pub LockedOnly : Wallet env → Type 0
  LockedOnly w = (k : Bytes) → SameOrNow k (env.get w.outputs k)

  pub get_saved :
      (w : Wallet env) (o : OutputData) (k : Bytes)
      → env.get (save env o w).1.outputs k
        ≡ (if bytes_eq (key_of o) k then some o else env.get w.outputs k)
  unfolding save
  get_saved w o k = env.get-put w.outputs (key_of o) k o

  pub save-Keyed : (w : Wallet env) (o : OutputData) → Keyed env w → Keyed env (save env o w).1
  save-Keyed w o keyed k p e = elim (Bool-cases (bytes_eq (key_of o) k)) [
    | inl b ↦
        ap key_of (sym (some_injective (rw b at (sym (get_saved w o k) ∙ e))))
        ∙ bytes_eq→eq (key_of o) k b
    | inr b ↦ keyed k p (rw b at (sym (get_saved w o k) ∙ e))
  ]

  -- The output under the key of one that is locked.
  lock_here :
      (w : Wallet env) (coin : OutputData) (k : Bytes)
      → env.get w.outputs k ≡ some coin
      → SameOrNow k (env.get w.outputs k)
      → Now k (some (locked_for coin))
  unfolding lock
  lock_here w coin k held (inl same) = (coin, sym same ∙ held, refl)
  lock_here w coin k held (inr (o, before, now)) =
      (o, before, ap (λ c. some (locked_for c)) (some_injective (sym held ∙ now)))

  -- The locking of an output keeps what a locked output satisfies.
  lock_step :
      (X : Option OutputData → Type 0) (k : Bytes)
      → ((r : Option OutputData) → Now k r → X r)
      → (w : Wallet env) (coin : OutputData) → env.get w.outputs (key_of coin) ≡ some coin
      → SameOrNow k (env.get w.outputs k)
      → X (env.get w.outputs k)
      → X (env.get (save env (locked_for coin) w).1.outputs k)
  unfolding lock
  lock_step X k into w coin held h x = elim (Bool-cases (bytes_eq (key_of coin) k)) [
    | inl b ↦
        let here = ap (λ j. env.get w.outputs j) (sym (bytes_eq→eq (key_of coin) k b)) ∙ held in
        subst X (sym (rw b at (get_saved w (locked_for coin) k)))
          (into (some (locked_for coin)) (lock_here w coin k here h))
    | inr b ↦ subst X (sym (rw b at (get_saved w (locked_for coin) k))) x
  ]

  abbrev pub Locking : Wallet env → Type 0
  Locking w = Keyed env w × LockedOnly w

  own_key :
      (w : Wallet env) (k : Bytes) (coin : OutputData)
      → Keyed env w
      → env.get w.outputs k ≡ some coin
      → env.get w.outputs (key_of coin) ≡ some coin
  own_key w k coin keyed held = ap (λ j. env.get w.outputs j) (keyed k coin held) ∙ held

  -- A key whose output is locked.
  abbrev pub IsNow : Bytes → Wallet env → Type 0
  IsNow k w = Now k (env.get w.outputs k)

  abbrev Holds : ℕ → Option ℕ → OutputData → Wallet env → Type 0
  Holds id mmr_index coin w = env.get w.outputs (output_key id mmr_index) ≡ some coin

  lock_coin-Locking :
      (id : ℕ) (mmr_index : Option ℕ) (coin : OutputData)
      → Triple
          (λ w. Locking w × Holds id mmr_index coin w)
          (lock_output env (record coin { tx_log_entry = some log_id }))
          (λ _ w. Locking w × IsNow (output_key id mmr_index) w)
  unfolding lock_output lock
  lock_coin-Locking id mmr_index coin w ((keyed, h), held) u e =
      let j = output_key id mmr_index in
      let own = own_key w j coin keyed held in
      (
        (
          save-Keyed w (locked_for coin) keyed,
          λ k. lock_step (SameOrNow k) k (λ r n. inr n) w coin own (h k) (h k),
        ),
        subst (λ k. Now k (env.get (save env (locked_for coin) w).1.outputs k)) (keyed j coin held)
            (subst (Now (key_of coin))
              (sym
                (rw (bytes_eq_refl (key_of coin)) at (get_saved w (locked_for coin) (key_of coin))))
              (lock_here w coin (key_of coin) own (h (key_of coin)))),
      )

  get_output-Locking :
      (P : Wallet env → Type 0) (id : ℕ) (mmr_index : Option ℕ)
      → Triple P (get_output env id mmr_index) (λ coin w. P w × Holds id mmr_index coin w)
  unfolding get_output
  get_output-Locking P id mmr_index w p coin e =
      (p, ok_or-some (env.get w.outputs (output_key id mmr_index)) coin e)

  -- The loop over the inputs keeps what the locking of one output keeps.
  lock_inputs-Triple :
      (P : Wallet env → Type 0)
      → ((id : ℕ) (mmr_index : Option ℕ) (coin : OutputData)
          → Triple
              (λ w. P w × Holds id mmr_index coin w)
              (lock_output env (record coin { tx_log_entry = some log_id }))
              (λ _ w. P w))
      → (lib : Libtx) (host : Host lib) (ids : List (ℕ × Option ℕ × ℕ)) (amount : ℕ)
      → Triple P (lock_inputs env lib host log_id amount ids) (λ _ w. P w)
  unfolding lock_inputs
  lock_inputs-Triple P step lib host [] amount w p a e = p
  lock_inputs-Triple P step lib host ((id, mmr_index, v) ∷ ids) amount w p a e =
      let H = λ (coin : OutputData) (w : Wallet env). P w × Holds id mmr_index coin w in
      Triple->>= P H (λ _ w. P w) (get_output env id mmr_index) _
        (get_output-Locking P id mmr_index)
        (λ coin.
          Triple->>= (H coin) (λ _ w. P w) (λ _ w. P w)
            (lock_output env (record coin { tx_log_entry = some log_id })) _
            (step id mmr_index coin)
            (λ u. lock_inputs-Triple P step lib host ids (add64 amount coin.value)))
        w p a e

  -- An output that is locked stays locked.
  lock_coin-IsNow :
      (k : Bytes) (id : ℕ) (mmr_index : Option ℕ) (coin : OutputData)
      → Triple
          (λ w. (Locking w × IsNow k w) × Holds id mmr_index coin w)
          (lock_output env (record coin { tx_log_entry = some log_id }))
          (λ _ w. Locking w × IsNow k w)
  unfolding lock_output lock
  lock_coin-IsNow k id mmr_index coin w (((keyed, h), n), held) u e = (
    (lock_coin-Locking id mmr_index coin w ((keyed, h), held) u refl).0,
    lock_step (Now k) k (λ r m. m) w coin (own_key w (output_key id mmr_index) coin keyed held)
        (h k) n,
  )

  -- Every input is locked.
  abbrev pub AllNow : List (ℕ × Option ℕ × ℕ) → Wallet env → Type 0
  AllNow ids w = (i : ℕ × Option ℕ × ℕ) → Memᴰ i ids → IsNow (output_key i.0 i.1) w

  pub lock_inputs-Locking :
      (lib : Libtx) (host : Host lib) (ids : List (ℕ × Option ℕ × ℕ)) (amount : ℕ)
      → Triple Locking
          (lock_inputs env lib host log_id amount ids)
          (λ _ w. Locking w × AllNow ids w)
  unfolding lock_inputs
  lock_inputs-Locking lib host [] amount w p a e = (p, λ i m. elim m [ ])
  lock_inputs-Locking lib host ((id, mmr_index, v) ∷ ids) amount w p a e =
      let H = λ (coin : OutputData) (w : Wallet env). Locking w × Holds id mmr_index coin w in
      let K = λ (w : Wallet env). Locking w × IsNow (output_key id mmr_index) w in
      let Q = λ (a : ℕ) (w : Wallet env). Locking w × AllNow ((id, mmr_index, v) ∷ ids) w in
      Triple->>= Locking H Q (get_output env id mmr_index) _
        (get_output-Locking Locking id mmr_index)
        (λ coin.
          Triple->>= (H coin) (λ _ w. K w) Q
            (lock_output env (record coin { tx_log_entry = some log_id })) _
            (lock_coin-Locking id mmr_index coin)
            (λ u w k b e.
              let after = (lock_inputs env lib host log_id (add64 amount coin.value) ids w).1 in
              let first =
                lock_inputs-Triple K (lock_coin-IsNow (output_key id mmr_index)) lib host ids
                  (add64 amount coin.value) w k b e in
              let rest = lock_inputs-Locking lib host ids (add64 amount coin.value) w k.0 b e in
              (
                rest.0,
                λ i m. elim (Memᴰ.cases_cons m) [
                  | inl same ↦ subst (λ j. IsNow (output_key j.0 j.1) after) (sym same) first.1
                  | inr later ↦ rest.1 i later
                ],
              )))
        w p a e
