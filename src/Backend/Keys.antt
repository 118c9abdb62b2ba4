-- ===== src/Backend/Keys.antt =====
-- The keys of the database's entries tell them apart (libwallet/src/backend.rs).
use mathlib.Core.List.{append-nil}
use native.Mathlib.Nat.{mod-eq_of_lt}
use grin_wallet.Prelude.{
  ℕ, ◌^◌, ◌<◌, ◌≡◌, refl, sym, ap, ◌∙◌, Option, none, some, [], ◌++◌, some_injective, arith,
}
use grin_wallet.Bytes.{Bytes, be_bytes, be_value, be_value-be_bytes}
use grin_wallet.Backend.{id_bytes, to_key_u64, output_key}

-- A number of `n` bytes, and what follows it, are read back.
number_back :
    (n v : ℕ) (rest : Bytes) → v < 256 ^ n → be_value n 0 (be_bytes n v ++ rest) ≡ some (v, rest)
number_back n v rest h =
    be_value-be_bytes n 0 v rest ∙ ap (λ t. some (t, rest)) (omega (arith, mod-eq_of_lt h))

number_injective : (n v u : ℕ) → v < 256 ^ n → u < 256 ^ n → be_bytes n v ≡ be_bytes n u → v ≡ u
number_injective n v u h k e =
    ap (λ t. t.0)
      (some_injective
        (sym (number_back n v [] h) ∙ ap (λ bs. be_value n 0 (bs ++ [])) e ∙ number_back n u [] k))

abbrev index_bytes : Option ℕ → Bytes
index_bytes none = []
index_bytes (some i) = be_bytes 8 i

output_key_parts : (id : ℕ) (i : Option ℕ) → output_key id i ≡ id_bytes id ++ index_bytes i
unfolding output_key to_key_u64
output_key_parts id none = sym (append-nil (id_bytes id))
output_key_parts id (some i) = refl

abbrev IsIndex : Option ℕ → Type 0
IsIndex none = Unit {0}
IsIndex (some i) = i < 2 ^ 64

index_bytes_injective :
    (i j : Option ℕ) → IsIndex i → IsIndex j → index_bytes i ≡ index_bytes j → i ≡ j
unfolding be_bytes
index_bytes_injective none none hi hj e = refl
index_bytes_injective none (some j) hi hj e = cc
index_bytes_injective (some i) none hi hj e = cc
index_bytes_injective (some i) (some j) hi hj e = ap some (number_injective 8 i j hi hj e)

-- No two outputs share a key of the database: identifiers of 17 bytes and indices of 64 bits that give
-- the same key are the same.
pub output_key_injective :
    (a b : ℕ) (i j : Option ℕ)
    → a < 256 ^ 17
    → b < 256 ^ 17
    → IsIndex i
    → IsIndex j
    → output_key a i ≡ output_key b j
    → (a ≡ b) × (i ≡ j)
output_key_injective a b i j ha hb hi hj e =
    let p : (a, index_bytes i) ≡ (b, index_bytes j) = some_injective (
      sym (number_back 17 a (index_bytes i) ha)
      ∙ ap (be_value 17 0) (sym (output_key_parts a i) ∙ e ∙ output_key_parts b j)
      ∙ number_back 17 b (index_bytes j) hb) in
    (ap (λ t. t.0) p, index_bytes_injective i j hi hj (ap (λ t. t.1) p))
