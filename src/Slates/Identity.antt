-- ===== src/Slates/Identity.antt =====
-- The operations on a slate keep its identifier (libwallet/src/slate.rs).
use grin_wallet.Prelude.{◌≡◌, Option, [], ◌∷◌, List, arith}
use grin_wallet.Prelude.Result.{ok}
use grin_wallet.Bytes.{Bytes}
use grin_wallet.Context.{Context}
use grin_wallet.Core.{Core}
use grin_wallet.Libtx.{Libtx}
use grin_wallet.Selection.Change.{Part}
use grin_wallet.Slates.{
  Slate, add_transaction_elements, add_participant_info, fill_round_1, adjust_offset,
  remove_other_sigdata,
}
use grin_wallet.Slates.Signing.{fill_round_2, finalize, finalize_transaction}

module _ (lib : Libtx) where
  pub add_transaction_elements-id :
      (s : Slate lib) (elems : List Part) (r : Slate lib × lib.BlindingFactor)
      → add_transaction_elements lib s elems ≡ ok r
      → r.0.id ≡ s.id
  unfolding add_transaction_elements
  add_transaction_elements-id s [] r e = ground arith
  add_transaction_elements-id s (p ∷ ps) r e = ground arith

  pub add_transaction_elements-amount :
      (s : Slate lib) (elems : List Part) (r : Slate lib × lib.BlindingFactor)
      → add_transaction_elements lib s elems ≡ ok r
      → (r.0.amount ≡ s.amount) × (r.0.fee_fields ≡ s.fee_fields)
  unfolding add_transaction_elements
  add_transaction_elements-amount s [] r e = ground arith
  add_transaction_elements-amount s (p ∷ ps) r e = ground arith

  pub add_participant_info-id :
      (s r : Slate lib) (c : Context) (sig : Option lib.Signature)
      → add_participant_info lib s c sig ≡ ok r
      → r.id ≡ s.id
  unfolding add_participant_info
  add_participant_info-id s r c sig e = ground arith

  pub fill_round_1-id : (s r : Slate lib) (c : Context) → fill_round_1 lib s c ≡ ok r → r.id ≡ s.id
  unfolding add_participant_info
  fill_round_1-id s r c e = ground arith

  pub fill_round_2-id :
      (s r : Slate lib) (k n : Bytes) → fill_round_2 lib s k n ≡ ok r → r.id ≡ s.id
  unfolding fill_round_2
  fill_round_2-id s r k n e = ground arith

  pub adjust_offset-id :
      (s r : Slate lib) (c : Context) → adjust_offset lib s c ≡ ok r → r.id ≡ s.id
  unfolding adjust_offset
  adjust_offset-id s r c e = ground arith

  pub remove_other_sigdata-id :
      (s r : Slate lib) (n k : Bytes) → remove_other_sigdata lib s n k ≡ ok r → r.id ≡ s.id
  unfolding remove_other_sigdata
  remove_other_sigdata-id s r n k e = ground arith

  finalize_transaction-id :
      (core : Core) (s r : Slate lib) (sig : lib.Signature)
      → finalize_transaction lib core s sig ≡ ok r
      → r.id ≡ s.id
  unfolding finalize_transaction
  finalize_transaction-id core s r sig e = ground arith

  pub finalize-id : (core : Core) (s r : Slate lib) → finalize lib core s ≡ ok r → r.id ≡ s.id
  unfolding finalize
  finalize-id core s r e = ground arith
