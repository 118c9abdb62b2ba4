-- ===== src/Wire.antt =====
-- Reading and writing of bytes (the readers and writers of grin_core's `ser`, as
-- libwallet/src/slate_versions/v4_bin.rs uses them). A reader is an operation on the bytes that are
-- left; a writer gives the bytes that it writes.
use mathlib.Core.List.{append_assoc}
use native.Mathlib.Nat.{mod-eq_of_lt}
use grin_wallet.Prelude.{
  ℕ, zero, suc, ◌^◌, ◌%◌, ◌+◌, ◌*◌, ◌<◌, ◌≡◌, refl, ◌∙◌, ap, Bool, true, false, Option, none, some,
  List, [], ◌∷◌, ◌++◌, length, All, if◌then◌else◌, arith,
}
use grin_wallet.Prelude.Result.{Result, ok, err, unexpected_data}
use grin_wallet.Prelude.Exec.{Exec, pure, continue, ◌>>=◌}
use grin_wallet.Bytes.{Bytes, be_bytes, be_value, be_value-be_bytes}

abbrev pub Reader : Type 0 → Type 0
Reader A = Exec Bytes A

abbrev read_of : Bytes → Option (ℕ × Bytes) → Result ℕ × Bytes
read_of bs none = (err unexpected_data, bs)
read_of bs (some (v, rest)) = (ok v, rest)

-- `read_u8`, `read_u16`, `read_u64` and a fixed number of bytes, read as one number
unfoldable pub read_uint : ℕ → Reader ℕ
read_uint n bs = read_of bs (be_value n 0 bs)

-- `for _ in 0..n`
unfoldable pub read_many : {A : Type 0} → Reader A → ℕ → Reader (List A)
read_many item zero = pure []
read_many item (suc n) = do a ← item; rest ← read_many item n; pure (a ∷ rest)

unfoldable pub write_many : {A : Type 0} → (A → Bytes) → List A → Bytes
write_many item [] = []
write_many item (a ∷ items) = item a ++ write_many item items

-- `a` is read from `bytes`, whatever follows them.
pub record IsRead {A : Type 0} (m : Reader A) (bytes : Bytes) (a : A) : Type 0 where
  pub reads : (rest : Bytes) → m (bytes ++ rest) ≡ (ok a, rest)

-- A type whose values are read back from what is written of them.
pub record Wire (A : Type 0) : Type 0 where
  pub write : A → Bytes
  pub read : Reader A
  pub read-write : (a : A) → IsRead read (write a) a

module _ {A B : Type 0} where
  pub IsRead->>= :
      {m : Reader A} (f : A → Reader B) {v w : Bytes} {a : A} {b : B}
      → IsRead m v a
      → IsRead (f a) w b
      → IsRead (m >>= f) (v ++ w) b
  IsRead->>= {m = m} f {v = v} {w = w} hm hf = record {
    reads = λ rest.
        ap (λ bs. (m >>= f) bs) (append_assoc v w rest)
        ∙ ap (λ r. continue r.0 f r.1) (hm.reads (w ++ rest))
        ∙ hf.reads rest;
  }

  -- The last of a sequence of reads.
  pub IsRead-last :
      {m : Reader A} (g : A → B) {v : Bytes} {a : A}
      → IsRead m v a
      → IsRead (m >>= λ x. pure (g x)) v (g a)
  IsRead-last g hm = record {
    reads = λ rest. ap (λ r. continue r.0 (λ x. pure (g x)) r.1) (hm.reads rest);
  }

-- A part that is written and read under the same condition.
pub IsRead-if :
    {A : Type 0} {m : Reader A} {v : Bytes} {a : A} (d : A) (c : Bool)
    → (c ≡ true → IsRead m v a)
    → IsRead (if c then m else pure d) (if c then v else []) (if c then a else d)
IsRead-if d true h = h refl
IsRead-if d false h = record { reads = λ rest. refl }

zero_times : (p v : ℕ) → 0 * p + v ≡ v
zero_times p v = omega arith

pub read_uint-be_bytes : (n v : ℕ) → v < 256 ^ n → IsRead (read_uint n) (be_bytes n v) v
unfolding read_uint
read_uint-be_bytes n v b = record {
  reads = λ rest.
      ap (read_of (be_bytes n v ++ rest)) (be_value-be_bytes n 0 v rest)
      ∙ ap (λ t. (ok t, rest)) (zero_times (256 ^ n) (v % 256 ^ n) ∙ mod-eq_of_lt b);
}

pub read_many-write_many :
    {A : Type 0} (write : A → Bytes) (read : Reader A) (items : List A)
    → All (λ a. IsRead read (write a) a) items
    → IsRead (read_many read (length items)) (write_many write items) items
unfolding read_many write_many
read_many-write_many write read [] h = record { reads = λ rest. refl }
read_many-write_many write read (a ∷ items) (h, hs) =
    IsRead->>= _ h (IsRead-last (λ l. a ∷ l) (read_many-write_many write read items hs))
