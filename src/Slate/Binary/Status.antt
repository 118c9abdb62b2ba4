-- ===== src/Slate/Binary/Status.antt =====
-- The bits of the status bytes (libwallet/src/slate_versions/v4_bin.rs).
use grin_wallet.Prelude.{ℕ, ◌+◌, ◌*◌, ◌<◌, ◌≡◌, Bool, arith}
use grin_wallet.Slate.Binary.{bit, has_bit}

abbrev pub status_of : Bool → Bool → Bool → Bool → Bool → ℕ
status_of n a f e t = bit n + 2 * bit a + 4 * bit f + 8 * bit e + 16 * bit t

module _ (n a f e t : Bool) where
  pub status-lt : status_of n a f e t < 256
  status-lt = ground arith

  pub status_bits :
      (has_bit (status_of n a f e t) 0 ≡ n)
      × (has_bit (status_of n a f e t) 1 ≡ a)
      × (has_bit (status_of n a f e t) 2 ≡ f)
      × (has_bit (status_of n a f e t) 3 ≡ e)
      × (has_bit (status_of n a f e t) 4 ≡ t)
  unfolding has_bit
  status_bits = (ground arith, ground arith, ground arith, ground arith, ground arith)

pub two_bits :
    (n a : Bool) → (has_bit (bit n + 2 * bit a) 0 ≡ n) × (has_bit (bit n + 2 * bit a) 1 ≡ a)
unfolding has_bit
two_bits n a = (ground arith, ground arith)
