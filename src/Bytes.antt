-- ===== src/Bytes.antt =====
-- Byte strings as lists of numbers: big-endian integers, as the `byteorder` calls of
-- libwallet/src/backend.rs and the writers of libwallet/src/slate_versions/v4_bin.rs use them.
use grin_wallet.Prelude.{
  ℕ, zero, suc, ◌+◌, ◌*◌, ◌/◌, ◌%◌, ◌^◌, ◌<◌, ◌≡◌, refl, ap, ◌∙◌, Bool, true, false, ◌&&◌, Option,
  none, some, List, [], ◌∷◌, ◌++◌, ◌==◌, length, All, arith,
}
use native.Mathlib.Nat.{
  pow-suc, one-le-pow, mod-lt, mod-eq_of_lt, mul-add-mod_self_right, div-add-mod',
}

abbrev pub Bytes : Type 0
Bytes = List ℕ

abbrev pub IsBytes : Bytes → Type 0
IsBytes = All (λ b. b < 256)

unfoldable pub bytes_eq : Bytes → Bytes → Bool
bytes_eq [] [] = true
bytes_eq (a ∷ as') (b ∷ bs) = let rest = bytes_eq as' bs in (a == b) && rest
bytes_eq _ _ = false

-- `v` in `n` bytes, the highest first.
unfoldable pub be_bytes : ℕ → ℕ → Bytes
be_bytes zero v = []
be_bytes (suc n) v = (v / 256 ^ n % 256) ∷ be_bytes n v

-- The number of `n` bytes behind those that make `acc`, with the bytes that are left.
unfoldable pub be_value : ℕ → ℕ → Bytes → Option (ℕ × Bytes)
be_value zero acc bs = some (acc, bs)
be_value (suc n) acc [] = none
be_value (suc n) acc (b ∷ bs) = be_value n (acc * 256 + b) bs

pub length-be_bytes : (n v : ℕ) → length (be_bytes n v) ≡ n
unfolding be_bytes
length-be_bytes zero v = refl
length-be_bytes (suc n) v = ap suc (length-be_bytes n v)

pub be_bytes-IsBytes : (n v : ℕ) → IsBytes (be_bytes n v)
unfolding be_bytes
be_bytes-IsBytes zero v = tt
be_bytes-IsBytes (suc n) v = (omega arith, be_bytes-IsBytes n v)

digit_unique : (m q x v : ℕ) → v ≡ q * m + x → x < m → v % m ≡ x
digit_unique m q x v e h = rw e (mul-add-mod_self_right q m x ∙ mod-eq_of_lt h)

below : (d p x : ℕ) → d < 256 → x < p → d * p + x < p * 256
below d p x h k = grind arith

split_mod : (p v : ℕ) → 0 < p → v % (p * 256) ≡ v / p % 256 * p + v % p
split_mod p v h =
    digit_unique (p * 256) (v / p / 256) (v / p % 256 * p + v % p) v
      (omega (arith, div-add-mod' v p, ap (λ (t : ℕ). t * p) (div-add-mod' (v / p) 256)))
      (below (v / p % 256) p (v % p) (omega arith) (mod-lt v h))

split_digit : (n v : ℕ) → v % 256 ^ suc n ≡ v / 256 ^ n % 256 * 256 ^ n + v % 256 ^ n
split_digit n v = rw (pow-suc 256 n) (split_mod (256 ^ n) v (one-le-pow n 256 (omega arith)))

shift_digit :
    (n acc v : ℕ)
    → (acc * 256 + v / 256 ^ n % 256) * 256 ^ n + v % 256 ^ n ≡ acc * 256 ^ suc n + v % 256 ^ suc n
shift_digit n acc v = omega (arith, split_digit n v, ap (λ (t : ℕ). acc * t) (pow-suc 256 n))

pub be_value-be_bytes :
    (n acc v : ℕ) (rest : Bytes)
    → be_value n acc (be_bytes n v ++ rest) ≡ some (acc * 256 ^ n + v % 256 ^ n, rest)
unfolding be_value be_bytes
be_value-be_bytes zero acc v rest = ground arith
be_value-be_bytes (suc n) acc v rest =
    be_value-be_bytes n (acc * 256 + v / 256 ^ n % 256) v rest
    ∙ ap (λ t. some (t, rest)) (shift_digit n acc v)

pub bytes_eq_refl : (as' : Bytes) → bytes_eq as' as' ≡ true
unfolding bytes_eq
bytes_eq_refl [] = refl
bytes_eq_refl (a ∷ as') = ground (arith, bytes_eq_refl as')

pub bytes_eq→eq : (as' bs : Bytes) → bytes_eq as' bs ≡ true → as' ≡ bs
unfolding bytes_eq
bytes_eq→eq [] [] h = refl
bytes_eq→eq [] (b ∷ bs) h = cc
bytes_eq→eq (a ∷ as') [] h = cc
bytes_eq→eq (a ∷ as') (b ∷ bs) h = ground (arith, bytes_eq→eq as' bs)
