-- ===== src/Slate/Binary/Whole.antt =====
-- A slate is read back from its binary form (libwallet/src/slate_versions/v4_bin.rs).
use mathlib.Core.Path.{subst}
use grin_wallet.Prelude.{
  ℕ, ◌+◌, ◌*◌, ◌^◌, ◌<◌, ◌≡◌, refl, sym, Bool, true, false, Option, none, some, List, [], ◌++◌,
  length, All, ◌==◌, if◌then◌else◌, arith,
}
use grin_wallet.Prelude.Result.{ok}
use grin_wallet.Bytes.{Bytes, be_bytes}
use grin_wallet.Wire.{IsRead, IsRead->>=, IsRead-last, read_uint-be_bytes, read_uint}
use grin_wallet.Slate.{Formats, PaymentInfoV4, CommitsV4, SlateV4}
use grin_wallet.Slate.Binary.{
  bit, is_some, read_some, write_some, write_structs, read_structs, fields_of, lock_height,
  write_slate, read_slate, read_coms, write_coms, read_proof, write_proof,
}
use grin_wallet.Slate.Binary.Status.{two_bits}
use grin_wallet.Slate.Binary.RoundTrip.{
  normal_fee, state-IsRead, some-IsRead, fields-IsRead, proof-IsRead, sigs-IsRead, coms-IsRead,
}

two_bits-lt : (a b : Bool) → bit a + 2 * bit b < 256
two_bits-lt a b = ground arith

module _ (ext : Formats) where
  structs-IsRead :
      (coms : Option (List (CommitsV4 ext))) (proof : Option (PaymentInfoV4 ext))
      → ((cs : List (CommitsV4 ext))
          → coms ≡ some cs
          → (length cs < 2 ^ 16) × All (λ o. o.f < 2) cs)
      → IsRead (read_structs ext) (write_structs ext coms proof) (coms, proof)
  unfolding read_structs write_structs
  structs-IsRead coms proof b =
      let (c, p) = two_bits (is_some coms) (is_some proof) in
      IsRead->>= _
        (read_uint-be_bytes 1 (bit (is_some coms) + 2 * bit (is_some proof))
          (two_bits-lt (is_some coms) (is_some proof)))
        (IsRead->>= _
          (subst (λ t. IsRead (read_some (read_coms ext) t) (write_some (write_coms ext) coms) coms)
            (sym c) (some-IsRead coms (λ cs e. coms-IsRead ext cs (b cs e))))
          (IsRead-last _ (
            subst
              (λ t.
                IsRead (read_some (read_proof ext) t) (write_some (write_proof ext) proof) proof)
              (sym p) (some-IsRead proof (λ q e. proof-IsRead ext q)))))

  -- The numbers of a slate fit the bytes that are written of them, and the features of an output are
  -- those of a plain one or a coinbase.
  pub record SlateFits (s : SlateV4 ext) : Type 0 where
    pub version : s.version < 2 ^ 16
    pub block_header_version : s.block_header_version < 2 ^ 16
    pub id : s.id < 2 ^ 128
    pub num_parts : s.num_parts < 2 ^ 8
    pub amt : s.amt < 2 ^ 64
    pub feat : s.feat < 2 ^ 8
    pub ttl : s.ttl < 2 ^ 64
    pub sigs : length s.sigs < 2 ^ 8
    pub coms :
        (cs : List (CommitsV4 ext))
        → s.coms ≡ some cs
        → (length cs < 2 ^ 16) × All (λ o. o.f < 2) cs
    pub lock : lock_height ext s.feat_args < 2 ^ 64

  abbrev pub normal_args : ℕ → Option ℕ → Option ℕ
  normal_args feat args = if feat == 2 then some (lock_height ext args) else none

  -- What the binary form keeps of a slate.
  abbrev pub normal_slate : SlateV4 ext → SlateV4 ext
  normal_slate s = record s {
    fee = normal_fee ext s.fee;
    feat_args = normal_args s.feat s.feat_args;
  }

  args-IsRead :
      (feat : ℕ) (args : Option ℕ)
      → lock_height ext args < 2 ^ 64
      → IsRead
          (read_some (read_uint 8) (feat == 2))
          (if feat == 2 then be_bytes 8 (lock_height ext args) else [])
          (normal_args feat args)
  args-IsRead feat args b = at (feat == 2)
    where
      at :
          (c : Bool)
          → IsRead
              (read_some (read_uint 8) c)
              (if c then be_bytes 8 (lock_height ext args) else [])
              (if c then some (lock_height ext args) else none)
      at true = IsRead-last some (read_uint-be_bytes 8 (lock_height ext args) b)
      at false = record { reads = λ rest. refl }

  slate-IsRead :
      (s : SlateV4 ext) → SlateFits s → IsRead (read_slate ext) (write_slate ext s) (normal_slate s)
  unfolding read_slate write_slate
  slate-IsRead s fit = IsRead->>= _ (read_uint-be_bytes 2 s.version fit.version) (
      IsRead->>= _ (read_uint-be_bytes 2 s.block_header_version fit.block_header_version) (
        IsRead->>= _ (read_uint-be_bytes 16 s.id fit.id) (
          IsRead->>= _ (state-IsRead s.sta) (
            IsRead->>= _ (ext.blinding_factor.read-write s.off) (
              IsRead->>= _
                (fields-IsRead ext (fields_of ext s)
                  (record { parts = fit.num_parts; amt = fit.amt; feat = fit.feat; ttl = fit.ttl }))
                (IsRead->>= _ (sigs-IsRead ext s.sigs fit.sigs) (
                  IsRead->>= _ (structs-IsRead s.coms s.proof fit.coms)
                    (IsRead-last _ (args-IsRead s.feat s.feat_args fit.lock)))))))))

  -- A slate whose numbers fit their bytes, with plain and coinbase outputs, is read back from its binary form, with all bytes that follow
  -- left over: as it was, but that a fee field with fee 0 comes back as the zero field, and that
  -- kernel arguments come back exactly for the height-locked feature, with lock height 0 if there
  -- were none.
  pub read_slate-write_slate :
      (s : SlateV4 ext) (rest : Bytes)
      → SlateFits s
      → read_slate ext (write_slate ext s ++ rest) ≡ (ok (normal_slate s), rest)
  read_slate-write_slate s rest fit = (slate-IsRead s fit).reads rest
