-- ===== src/Exchange/Lock/Commits.antt =====
-- The commitments of the change outputs (`output_commits` in `lock_tx_context` of
-- libwallet/src/internal/selection.rs).
use grin_wallet.Prelude.{ℕ, ◌≡◌, refl, sym, ◌∙◌, Option, List, [], ◌∷◌, ap, map, arith}
use grin_wallet.Prelude.Result.{ok, ok_injective}
use grin_wallet.Prelude.Exec.{exec-eq-ok}
use grin_wallet.Prelude.Keeps.{IsPreorder, Keeps, Keeps->>=}
use grin_wallet.Libtx.{Libtx}
use grin_wallet.Backend.{Env, Wallet, calc_commit_for_cache}
use grin_wallet.Exchange.{Host}
use grin_wallet.Exchange.Lock.{ChangeCommit, output_commits}

-- The identifier and the amount of a commitment.
abbrev pub asked_for : ChangeCommit → ℕ × ℕ
asked_for c = (c.key_id, c.change_amount)

module _ (env : Env) (lib : Libtx) (host : Host lib) where
  unlocked_commit_still :
      (amount id : ℕ) (w : Wallet env) → (calc_commit_for_cache env amount id w).1 ≡ w
  unlocked_commit_still amount id w = ground arith

  abbrev pub Still : Wallet env → Wallet env → Type 0
  Still w w' = w' ≡ w

  Still-IsPreorder : IsPreorder Still
  Still-IsPreorder = record { reflexive = λ w. refl; transitive = λ u v w p q. q ∙ p }

  pub output_commits-Still :
      (ids : List (ℕ × Option ℕ × ℕ)) → Keeps Still (output_commits env lib host ids)
  unfolding output_commits
  output_commits-Still [] = λ w. refl
  output_commits-Still ((id, i, v) ∷ ids) =
      Keeps->>= Still Still-IsPreorder (calc_commit_for_cache env v id) _
        (unlocked_commit_still v id)
        (λ c.
          Keeps->>= Still Still-IsPreorder (output_commits env lib host ids) _
            (output_commits-Still ids) (λ r v. refl))

  pub output_commits-asked :
      (ids : List (ℕ × Option ℕ × ℕ)) (w : Wallet env) (commits : List ChangeCommit)
      → (output_commits env lib host ids w).0 ≡ ok commits
      → map asked_for commits ≡ map (λ i. (i.0, i.2)) ids
  unfolding output_commits
  output_commits-asked [] w commits e = ap (map asked_for) (sym (ok_injective e))
  output_commits-asked ((id, i, v) ∷ ids) w commits e =
      let (c, p, q, r) = exec-eq-ok (calc_commit_for_cache env v id) _ w e in
      let (rest, a, b, d) =
        exec-eq-ok (output_commits env lib host ids) _ (calc_commit_for_cache env v id w).1 q in
      ap (map asked_for) (sym (ok_injective b))
      ∙ ap (λ xs. (id, v) ∷ xs)
          (output_commits-asked ids (calc_commit_for_cache env v id w).1 rest a)
