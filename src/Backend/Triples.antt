-- ===== src/Backend/Triples.antt =====
-- Triples of the operations that the wallet is made of (libwallet/src/backend.rs).
use mathlib.Core.Path.{subst}
use grin_wallet.Prelude.{◌≡◌, refl, sym, ◌∙◌, ap}
use grin_wallet.Prelude.Result.{Result, ok, err, panic, stuck, ok_injective}
use grin_wallet.Prelude.Exec.{pure, lift, batched, settle, exec-eq-ok}
use grin_wallet.Prelude.Triple.{Triple}
use grin_wallet.Backend.{Env, Wallet, Op, in_batch}

module _ (env : Env) where
  settle_ok :
      {A : Type 0} (s : Wallet env) (r : Result A) (s' : Wallet env) (a : A)
      → (settle s r s').0 ≡ ok a
      → (r ≡ ok a) × ((settle s r s').1 ≡ s')
  settle_ok s (ok b) s' a e = (e, refl)
  settle_ok s (err x) s' a e = cc
  settle_ok s panic s' a e = cc
  settle_ok s stuck s' a e = cc

  pub Triple-in_batch :
      {A : Type 0} (P : Wallet env → Type 0) (m : Op env A) (Q : A → Wallet env → Type 0)
      → Triple P m Q
      → Triple P (in_batch env m) Q
  Triple-in_batch P m Q h s p a e =
      let (u, e1, e2, e3) = exec-eq-ok (lift env.unlocked) (λ _. batched m) s e in
      let (f, g) = settle_ok s (m s).0 (m s).1 a e2 in
      subst (λ w. Q a w) (sym (ap (λ r. r.1) e3 ∙ g)) (h s p a f)

  pub Triple-lift :
      {A : Type 0} (P : Wallet env → Type 0) (r : Result A)
      → Triple P (lift r) (λ a w. P w × (r ≡ ok a))
  Triple-lift P r s p a e = (p, e)

  pub Triple-pure :
      {A : Type 0} (P : Wallet env → Type 0) (a : A) (Q : A → Wallet env → Type 0)
      → ((w : Wallet env) → P w → Q a w)
      → Triple P (pure a) Q
  Triple-pure P a Q h w p b e = subst (λ c. Q c w) (ok_injective e) (h w p)

  -- A result that is lifted leaves the state alone.
  pub Triple-result :
      {A : Type 0} (P : Wallet env → Type 0) (r : Result A) (Q : A → Wallet env → Type 0)
      → ((w : Wallet env) → P w → (a : A) → r ≡ ok a → Q a w)
      → Triple P (lift r) Q
  Triple-result P r Q h w p a e = h w p a e
