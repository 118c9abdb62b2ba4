-- ===== src/Slate/Binary/RoundTrip.antt =====
-- The parts of a slate are read back from their binary form (libwallet/src/slate_versions/v4_bin.rs).
use mathlib.Core.Path.{subst}
use native.Mathlib.Nat.{mod-eq_of_lt}
use grin_wallet.Prelude.{
  ℕ, ◌^◌, ◌<◌, ◌≡◌, refl, sym, Bool, not, Option, none, some, List, [], ◌∷◌, length, All, ltb, ◌==◌,
  if◌then◌else◌, arith,
}
use grin_wallet.Bytes.{Bytes, be_bytes}
use grin_wallet.TxLog.{
  SlateState, unknown, standard1, standard2, standard3, invoice1, invoice2, invoice3,
}
use grin_wallet.Wire.{
  Reader, IsRead, IsRead->>=, IsRead-last, IsRead-if, read_uint-be_bytes, read_many-write_many,
  read_uint,
}
use grin_wallet.Slate.{
  features_v4, features_of, Formats, ParticipantDataV4, PaymentInfoV4, CommitsV4,
}
use grin_wallet.Slate.Binary.{
  write_state, read_state, state_of, bit, has_bit, is_some, write_some, read_some, OptFields,
  fields_status, write_fields, read_fields, write_sig, read_sig, write_sigs, read_sigs, write_com,
  read_com, write_coms, read_coms, write_proof, read_proof,
}
use grin_wallet.Slate.Binary.Status.{status-lt, status_bits}

features_back : (f : ℕ) → f < 2 → features_v4 (features_of f) ≡ f
features_back f b = ground arith

pub state-IsRead : (s : SlateState) → IsRead read_state (write_state s) s
unfolding write_state read_state
state-IsRead unknown = IsRead-last state_of (read_uint-be_bytes 1 0 (omega arith))
state-IsRead standard1 = IsRead-last state_of (read_uint-be_bytes 1 1 (omega arith))
state-IsRead standard2 = IsRead-last state_of (read_uint-be_bytes 1 2 (omega arith))
state-IsRead standard3 = IsRead-last state_of (read_uint-be_bytes 1 3 (omega arith))
state-IsRead invoice1 = IsRead-last state_of (read_uint-be_bytes 1 4 (omega arith))
state-IsRead invoice2 = IsRead-last state_of (read_uint-be_bytes 1 5 (omega arith))
state-IsRead invoice3 = IsRead-last state_of (read_uint-be_bytes 1 6 (omega arith))

-- An optional part after its flag.
pub some-IsRead :
    {A : Type 0} {write : A → Bytes} {read : Reader A} (o : Option A)
    → ((a : A) → o ≡ some a → IsRead read (write a) a)
    → IsRead (read_some read (is_some o)) (write_some write o) o
some-IsRead none h = record { reads = λ rest. refl }
some-IsRead (some a) h = IsRead-last some (h a refl)

flag-lt : (b : Bool) → bit b < 256
flag-lt b = ground arith

flag_read : (b : Bool) → (bit b == 1) ≡ b
flag_read b = ground arith

flag_read_nonzero : (b : Bool) → not (bit b == 0) ≡ b
flag_read_nonzero b = ground arith

module _ (ext : Formats) where
  abbrev pub normal_fee : ext.FeeFields → ext.FeeFields
  normal_fee f = if ltb 0 (ext.fee f) then f else ext.zero_fee

  pub record FieldsFit (o : OptFields ext) : Type 0 where
    pub parts : o.num_parts < 2 ^ 8
    pub amt : o.amt < 2 ^ 64
    pub feat : o.feat < 2 ^ 8
    pub ttl : o.ttl < 2 ^ 64

  fields_back :
      (o : OptFields ext)
      → (record {
        num_parts = if has_bit (fields_status ext o) 0 then o.num_parts else 2;
        amt = if has_bit (fields_status ext o) 1 then o.amt else 0;
        fee = if has_bit (fields_status ext o) 2 then o.fee else ext.zero_fee;
        feat = if has_bit (fields_status ext o) 3 then o.feat else 0;
        ttl = if has_bit (fields_status ext o) 4 then o.ttl else 0;
      })
        ≡ (record o { fee = normal_fee o.fee })
  unfolding fields_status
  fields_back o =
      let (b0, b1, b2, b3, b4) =
        status_bits (not (o.num_parts == 2)) (ltb 0 o.amt) (ltb 0 (ext.fee o.fee)) (ltb 0 o.feat)
          (ltb 0 o.ttl) in
      ground (arith, b0, b1, b2, b3, b4)

  status_fits : (o : OptFields ext) → fields_status ext o < 256
  unfolding fields_status
  status_fits o =
      status-lt (not (o.num_parts == 2)) (ltb 0 o.amt) (ltb 0 (ext.fee o.fee)) (ltb 0 o.feat)
        (ltb 0 o.ttl)

  pub fields-IsRead :
      (o : OptFields ext)
      → FieldsFit o
      → IsRead (read_fields ext) (write_fields ext o) (record o { fee = normal_fee o.fee })
  unfolding read_fields write_fields
  fields-IsRead o fit =
      let status = fields_status ext o in
      subst (λ x. IsRead (read_fields ext) (write_fields ext o) x) (fields_back o)
        (IsRead->>= _ (read_uint-be_bytes 1 status (status_fits o)) (
          IsRead->>= _
            (IsRead-if 2 (has_bit status 0) (λ b. read_uint-be_bytes 1 o.num_parts fit.parts))
            (IsRead->>= _ (IsRead-if 0 (has_bit status 1) (λ b. read_uint-be_bytes 8 o.amt fit.amt))
              (IsRead->>= _
                (IsRead-if ext.zero_fee (has_bit status 2) (λ b. ext.fee_fields.read-write o.fee))
                (IsRead->>= _
                  (IsRead-if 0 (has_bit status 3) (λ b. read_uint-be_bytes 1 o.feat fit.feat))
                  (IsRead-last _
                    (IsRead-if 0 (has_bit status 4) (λ b. read_uint-be_bytes 8 o.ttl fit.ttl))))))))

  sig-IsRead : (s : ParticipantDataV4 ext) → IsRead (read_sig ext) (write_sig ext s) s
  unfolding read_sig write_sig
  sig-IsRead s =
      IsRead->>= _ (read_uint-be_bytes 1 (bit (is_some s.part)) (flag-lt (is_some s.part))) (
        IsRead->>= _ (ext.public_key.read-write s.xs) (
          IsRead->>= _ (ext.public_key.read-write s.nonce) (
            IsRead-last _ (
              subst
                (λ b.
                  IsRead (read_some ext.signature.read b) (write_some ext.signature.write s.part)
                    s.part)
                (sym (flag_read (is_some s.part)))
                (some-IsRead s.part (λ a e. ext.signature.read-write a))))))

  com-IsRead : (o : CommitsV4 ext) → o.f < 2 → IsRead (read_com ext) (write_com ext o) o
  unfolding read_com write_com
  com-IsRead o b =
      subst (λ g. IsRead (read_com ext) (write_com ext o) (record o { f = g }))
        (features_back o.f b)
        (IsRead->>= _ (read_uint-be_bytes 1 (bit (is_some o.p)) (flag-lt (is_some o.p))) (
          IsRead->>= _ (ext.output_features.read-write (features_of o.f)) (
            IsRead->>= _ (ext.commitment.read-write o.c) (
              IsRead-last _ (
                subst
                  (λ b.
                    IsRead (read_some ext.range_proof.read b) (write_some ext.range_proof.write o.p)
                      o.p)
                  (sym (flag_read (is_some o.p)))
                  (some-IsRead o.p (λ a e. ext.range_proof.read-write a)))))))

  pub proof-IsRead : (p : PaymentInfoV4 ext) → IsRead (read_proof ext) (write_proof ext p) p
  unfolding read_proof write_proof
  proof-IsRead p = IsRead->>= _ (ext.dalek_public_key.read-write p.saddr) (
      IsRead->>= _ (ext.dalek_public_key.read-write p.raddr) (
        IsRead->>= _ (read_uint-be_bytes 1 (bit (is_some p.rsig)) (flag-lt (is_some p.rsig))) (
          IsRead-last _ (
            subst
              (λ b.
                IsRead (read_some ext.dalek_signature.read b)
                  (write_some ext.dalek_signature.write p.rsig) p.rsig)
              (sym (flag_read_nonzero (is_some p.rsig)))
              (some-IsRead p.rsig (λ a e. ext.dalek_signature.read-write a))))))

  All-always : {A : Type 0} {P : A → Type 0} (items : List A) → ((a : A) → P a) → All P items
  All-always [] h = tt
  All-always (a ∷ items) h = (h a, All-always items h)

  All-imp :
      {A : Type 0} {P Q : A → Type 0} (items : List A)
      → ((a : A) → P a → Q a)
      → All P items
      → All Q items
  All-imp [] h k = tt
  All-imp (a ∷ items) h (k, ks) = (h a k, All-imp items h ks)

  pub sigs-IsRead :
      (sigs : List (ParticipantDataV4 ext))
      → length sigs < 2 ^ 8
      → IsRead (read_sigs ext) (write_sigs ext sigs) sigs
  unfolding read_sigs write_sigs
  sigs-IsRead sigs b =
      IsRead->>= _
        (subst (λ n. IsRead (read_uint 1) (be_bytes 1 n) (length sigs)) (sym (mod-eq_of_lt b))
          (read_uint-be_bytes 1 (length sigs) b))
        (read_many-write_many _ _ sigs (All-always sigs sig-IsRead))

  pub coms-IsRead :
      (coms : List (CommitsV4 ext))
      → (length coms < 2 ^ 16) × All (λ o. o.f < 2) coms
      → IsRead (read_coms ext) (write_coms ext coms) coms
  unfolding read_coms write_coms
  coms-IsRead coms (b, f) =
      IsRead->>= _
        (subst (λ n. IsRead (read_uint 2) (be_bytes 2 n) (length coms)) (sym (mod-eq_of_lt b))
          (read_uint-be_bytes 2 (length coms) b))
        (read_many-write_many _ _ coms (All-imp coms com-IsRead f))
