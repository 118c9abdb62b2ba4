-- ===== src/Store.antt =====
-- The database behind the wallet (the crate grin_store over LMDB, which is not part of this
-- repository): tables of values under byte keys. The laws are what the wallet relies on: a table
-- holds one value for a key, and iteration goes through exactly the values that are held.
pub mod Assoc
use grin_wallet.Prelude.{◌≡◌, Option, none, some, List, All, if◌then◌else◌}
use grin_wallet.Bytes.{Bytes, bytes_eq}

pub record Store : Type 1 where
  pub Table : Type 0 → Type 0
  pub get : {V : Type 0} → Table V → Bytes → Option V
  pub put : {V : Type 0} → Table V → Bytes → V → Table V
  pub delete : {V : Type 0} → Table V → Bytes → Table V
  pub iter : {V : Type 0} → Table V → List V
  pub get-put :
      {V : Type 0} (t : Table V) (k j : Bytes) (v : V)
      → get (put t k v) j ≡ (if bytes_eq k j then some v else get t j)
  pub get-delete :
      {V : Type 0} (t : Table V) (k j : Bytes)
      → get (delete t k) j ≡ (if bytes_eq k j then none else get t j)
  pub iter_sound :
      {V : Type 0} (t : Table V) (P : V → Type 0)
      → ((k : Bytes) (v : V) → get t k ≡ some v → P v)
      → All P (iter t)
  pub iter_complete :
      {V : Type 0} (t : Table V) (P : V → Type 0)
      → All P (iter t)
      → (k : Bytes) (v : V) → get t k ≡ some v
      → P v
