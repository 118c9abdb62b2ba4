-- ===== src/Exchange/Receive/Once.antt =====
-- A slate is received once (`receive_tx` of libwallet/src/api_impl/foreign.rs).
use Prim.Native.String.{String}
use mathlib.Core.Path.{subst}
use grin_wallet.Prelude.{
  ◌≡◌, refl, sym, ◌∙◌, ap, Bool, true, false, Option, none, some, Bool-cases, inl, inr, ℕ,
}
use grin_wallet.Prelude.Result.{ok, Error, err, transaction_expired, transaction_already_received}
use grin_wallet.Libtx.{Libtx}
use grin_wallet.Slates.{Slate}
use grin_wallet.Backend.{Env, Wallet, Op, last_confirmed_height_for_parent}
use grin_wallet.Exchange.{is_expired, check_ttl, Host}
use grin_wallet.Exchange.Receive.{is_received, dest_account, account_of, receive_new, receive_tx}
use grin_wallet.Exchange.Receive.Logged.{IsNew}
use grin_wallet.Exchange.Receive.Accounts.{SameAccounts, receive_at-Keeps}
use grin_wallet.Exchange.Receive.Recorded.{receive_at-Recorded, Recorded-is_received}

module _ (env : Env) (lib : Libtx) (host : Host lib) where
  -- What `receive_tx` does, by its two guards.
  abbrev guarded : Slate lib → ℕ → Bool → Bool → Op env (Slate lib)
  guarded s parent_key_id true received w = (err transaction_expired, w)
  guarded s parent_key_id false true w = (err transaction_already_received, w)
  guarded s parent_key_id false false w = receive_new env lib host s parent_key_id w

  receive_tx-guarded :
      (s : Slate lib) (dest : Option String) (w : Wallet env)
      → receive_tx env lib host s dest false w
        ≡ guarded s
            (dest_account env lib host dest w)
            (is_expired env lib host s w)
            (is_received env lib host s (dest_account env lib host dest w) false w)
            w
  unfolding receive_tx check_ttl
  receive_tx-guarded s dest w = elim (Bool-cases (is_expired env lib host s w)) [
    | inl e ↦ rw e refl
    | inr e ↦
        elim (Bool-cases (is_received env lib host s (dest_account env lib host dest w) false w)) [
          | inl r ↦ rw e (rw r refl)
          | inr r ↦ rw e (rw r refl)
        ]
  ]

  same_account :
      (dest : Option String) (w w' : Wallet env)
      → SameAccounts env w w'
      → dest_account env lib host dest w' ≡ dest_account env lib host dest w
  unfolding dest_account
  same_account none w w' (a, b) = a
  same_account (some d) w w' (a, b) =
      λ i. account_of env lib host (a i) (env.get (b i) (env.as_bytes d))

  -- A success goes past both guards.
  passed :
      (s r : Slate lib) (p : ℕ) (expired received : Bool) (w : Wallet env)
      → (guarded s p expired received w).0 ≡ ok r
      → ((receive_new env lib host s p w).0 ≡ ok r)
        × (guarded s p expired received w ≡ receive_new env lib host s p w)
  passed s r p true received w e = cc
  passed s r p false true w e = cc
  passed s r p false false w e = (e, refl)

  refused :
      (s : Slate lib) (p : ℕ) (expired received : Bool) (w : Wallet env)
      → received ≡ true
      → (x : Error) × (guarded s p expired received w ≡ (err x, w))
  refused s p true received w e = (transaction_expired, refl)
  refused s p false true w e = (transaction_already_received, refl)
  refused s p false false w e = cc

  -- A slate is received once: where no entry of the log is of the slate and it is received, the same
  -- slate for the same destination is refused afterwards, and the wallet stays as it is.
  pub receive_tx_once :
      (s r : Slate lib) (dest : Option String) (w : Wallet env)
      → IsNew env s.id (dest_account env lib host dest w) w.tx_logs
      → (receive_tx env lib host s dest false w).0 ≡ ok r
      → (x : Error) × (receive_tx env lib host s dest false
            (receive_tx env lib host s dest false w).1
          ≡ (err x, (receive_tx env lib host s dest false w).1))
  receive_tx_once s r dest w new e =
      let p = dest_account env lib host dest w in
      let g = receive_tx-guarded s dest w in
      let (f, h) = passed s r p _ _ w (sym (ap (λ t. t.0) g) ∙ e) in
      let h' : (receive_tx env lib host s dest false w).1 ≡ (receive_new env lib host s p w).1 =
        ap (λ t. t.1) (g ∙ h) in
      let w' = (receive_new env lib host s p w).1 in
      let height = last_confirmed_height_for_parent env p w in
      let recorded = receive_at-Recorded env lib host s.id p s height refl w new r f in
      let same = same_account dest w w' (receive_at-Keeps env lib host p s height w) in
      let received : is_received env lib host s (dest_account env lib host dest w') false w'
          ≡ true =
        ap (λ q. is_received env lib host s q false w') same
        ∙ Recorded-is_received env lib host s.id p s r w' refl recorded in
      let (x, k) =
        refused s (dest_account env lib host dest w') (is_expired env lib host s w') _ w'
          received in
      subst (λ v. (x : Error) × (receive_tx env lib host s dest false v ≡ (err x, v))) (sym h')
        (x, receive_tx-guarded s dest w' ∙ k)
