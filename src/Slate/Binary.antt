-- ===== src/Slate/Binary.antt =====
-- The binary form of a slate (libwallet/src/slate_versions/v4_bin.rs). The bits of a status byte are
-- set once each, so that `|=` adds them up.
pub mod Status
pub mod RoundTrip
pub mod Whole
use grin_wallet.Prelude.{
  ℕ, ◌+◌, ◌*◌, ◌/◌, ◌%◌, ◌^◌, Bool, true, false, not, Option, none, some, List, ◌++◌, [], ◌∷◌,
  length, ltb, ◌==◌, if◌then◌else◌,
}
use grin_wallet.Prelude.Exec.{pure, ◌>>=◌}
use grin_wallet.Bytes.{Bytes, be_bytes}
use grin_wallet.TxLog.{
  SlateState, unknown, standard1, standard2, standard3, invoice1, invoice2, invoice3,
}
use grin_wallet.Wire.{Reader, Wire, read_uint, read_many, write_many}
use grin_wallet.Slate.{
  features_v4, features_of, Formats, ParticipantDataV4, PaymentInfoV4, CommitsV4, SlateV4,
}

abbrev state_byte : SlateState → ℕ
state_byte unknown = 0
state_byte standard1 = 1
state_byte standard2 = 2
state_byte standard3 = 3
state_byte invoice1 = 4
state_byte invoice2 = 5
state_byte invoice3 = 6

abbrev state_of : ℕ → SlateState
state_of b =
    if b == 1
    then standard1
    else if b == 2
    then standard2
    else if b == 3
    then standard3
    else if b == 4
    then invoice1
    else if b == 5
    then invoice2
    else if b == 6
    then invoice3
    else unknown

unfoldable pub write_state : SlateState → Bytes
write_state s = be_bytes 1 (state_byte s)

unfoldable pub read_state : Reader SlateState
read_state = do b ← read_uint 1; pure (state_of b)

abbrev pub bit : Bool → ℕ
bit true = 1
bit false = 0

-- `status & (1 << i) > 0`
unfoldable pub has_bit : ℕ → ℕ → Bool
has_bit status i = status / 2 ^ i % 2 == 1

abbrev pub is_some {ℓ} : {A : Type ℓ} → Option A → Bool
is_some none = false
is_some (some a) = true

-- `if let Some(x) = o { x.write(writer)? }`
abbrev pub write_some : {A : Type 0} → (A → Bytes) → Option A → Bytes
write_some write none = []
write_some write (some a) = write a

-- A read that a condition asks for.
abbrev pub read_some : {A : Type 0} → Reader A → Bool → Reader (Option A)
read_some read true = do a ← read; pure (some a)
read_some read false = pure none

-- A flag before an optional part; only 1 announces the part.
abbrev read_flag : ℕ → Bool
read_flag b = b == 1

module _ (ext : Formats) where
  -- `SlateOptFields`
  pub record OptFields : Type 0 where
    pub num_parts : ℕ
    pub amt : ℕ
    pub fee : ext.FeeFields
    pub feat : ℕ
    pub ttl : ℕ

  abbrev has_parts : OptFields → Bool
  has_parts o = not (o.num_parts == 2)

  abbrev has_fee : OptFields → Bool
  has_fee o = ltb 0 (ext.fee o.fee)

  unfoldable pub fields_status : OptFields → ℕ
  fields_status o =
      bit (has_parts o)
      + 2 * bit (ltb 0 o.amt)
      + 4 * bit (has_fee o)
      + 8 * bit (ltb 0 o.feat)
      + 16 * bit (ltb 0 o.ttl)

  unfoldable pub write_fields : OptFields → Bytes
  unfolding fields_status has_bit
  write_fields o =
      let status : ℕ = fields_status o in
      be_bytes 1 status
      ++ ((if has_bit status 0 then be_bytes 1 o.num_parts else [])
          ++ ((if has_bit status 1 then be_bytes 8 o.amt else [])
              ++ ((if has_bit status 2 then ext.fee_fields.write o.fee else [])
                  ++ ((if has_bit status 3 then be_bytes 1 o.feat else [])
                      ++ (if has_bit status 4 then be_bytes 8 o.ttl else [])))))

  unfoldable pub read_fields : Reader OptFields
  unfolding has_bit
  read_fields = do
    status ← read_uint 1
    num_parts ← if has_bit status 0 then read_uint 1 else pure 2
    amt ← if has_bit status 1 then read_uint 8 else pure 0
    fee ← if has_bit status 2 then ext.fee_fields.read else pure ext.zero_fee
    feat ← if has_bit status 3 then read_uint 1 else pure 0
    ttl ← if has_bit status 4 then read_uint 8 else pure 0
    pure (record { num_parts = num_parts; amt = amt; fee = fee; feat = feat; ttl = ttl })

  -- One participant of `SigsWrap`.
  unfoldable pub write_sig : ParticipantDataV4 ext → Bytes
  write_sig s =
      be_bytes 1 (bit (is_some s.part))
      ++ (ext.public_key.write s.xs
          ++ (ext.public_key.write s.nonce ++ write_some ext.signature.write s.part))

  unfoldable pub read_sig : Reader (ParticipantDataV4 ext)
  read_sig = do
    has_partial ← read_uint 1
    xs ← ext.public_key.read
    nonce ← ext.public_key.read
    part ← read_some ext.signature.read (read_flag has_partial)
    pure (record { xs = xs; nonce = nonce; part = part })

  -- `len() as u8`
  unfoldable pub write_sigs : List (ParticipantDataV4 ext) → Bytes
  unfolding write_sig write_many
  write_sigs sigs = be_bytes 1 (length sigs % 256) ++ write_many write_sig sigs

  unfoldable pub read_sigs : Reader (List (ParticipantDataV4 ext))
  unfolding read_sig read_many
  read_sigs = do sigs_len ← read_uint 1; read_many read_sig sigs_len

  -- One element of `ComsWrap`.
  unfoldable pub write_com : CommitsV4 ext → Bytes
  write_com o =
      be_bytes 1 (bit (is_some o.p))
      ++ (ext.output_features.write (features_of o.f)
          ++ (ext.commitment.write o.c ++ write_some ext.range_proof.write o.p))

  unfoldable pub read_com : Reader (CommitsV4 ext)
  read_com = do
    is_output ← read_uint 1
    f ← ext.output_features.read
    c ← ext.commitment.read
    p ← read_some ext.range_proof.read (read_flag is_output)
    pure (record { f = features_v4 f; c = c; p = p })

  -- `len() as u16`
  unfoldable pub write_coms : List (CommitsV4 ext) → Bytes
  unfolding write_com write_many
  write_coms coms = be_bytes 2 (length coms % 2 ^ 16) ++ write_many write_com coms

  unfoldable pub read_coms : Reader (List (CommitsV4 ext))
  unfolding read_com read_many
  read_coms = do coms_len ← read_uint 2; read_many read_com coms_len

  -- `ProofWrap`: any flag but 0 announces the signature.
  unfoldable pub write_proof : PaymentInfoV4 ext → Bytes
  write_proof p =
      ext.dalek_public_key.write p.saddr
      ++ (ext.dalek_public_key.write p.raddr
          ++ (be_bytes 1 (bit (is_some p.rsig)) ++ write_some ext.dalek_signature.write p.rsig))

  unfoldable pub read_proof : Reader (PaymentInfoV4 ext)
  read_proof = do
    saddr ← ext.dalek_public_key.read
    raddr ← ext.dalek_public_key.read
    flag ← read_uint 1
    rsig ← read_some ext.dalek_signature.read (not (flag == 0))
    pure (record { saddr = saddr; raddr = raddr; rsig = rsig })

  -- `SlateOptStructs`
  unfoldable pub write_structs : Option (List (CommitsV4 ext)) → Option (PaymentInfoV4 ext) → Bytes
  unfolding write_coms write_proof
  write_structs coms proof =
      be_bytes 1 (bit (is_some coms) + 2 * bit (is_some proof))
      ++ (write_some write_coms coms ++ write_some write_proof proof)

  unfoldable pub read_structs : Reader (Option (List (CommitsV4 ext)) × Option (PaymentInfoV4 ext))
  unfolding read_coms read_proof has_bit
  read_structs = do
    status ← read_uint 1
    coms ← read_some read_coms (has_bit status 0)
    proof ← read_some read_proof (has_bit status 1)
    pure (coms, proof)

  abbrev pub lock_height : Option ℕ → ℕ
  lock_height none = 0
  lock_height (some l) = l

  abbrev pub fields_of : SlateV4 ext → OptFields
  fields_of s = record {
    num_parts = s.num_parts;
    amt = s.amt;
    fee = s.fee;
    feat = s.feat;
    ttl = s.ttl;
  }

  -- `SlateV4Bin`
  unfoldable pub write_slate : SlateV4 ext → Bytes
  unfolding write_state write_fields write_sigs write_structs
  write_slate s =
      be_bytes 2 s.version
      ++ (be_bytes 2 s.block_header_version
          ++ (be_bytes 16 s.id
              ++ (write_state s.sta
                  ++ (ext.blinding_factor.write s.off
                      ++ (write_fields (fields_of s)
                          ++ (write_sigs s.sigs
                              ++ (write_structs s.coms s.proof
                                  ++ (if s.feat == 2
                                      then be_bytes 8 (lock_height s.feat_args)
                                      else []))))))))

  unfoldable pub read_slate : Reader (SlateV4 ext)
  unfolding read_state read_fields read_sigs read_structs
  read_slate = do
    version ← read_uint 2
    block_header_version ← read_uint 2
    id ← read_uint 16
    sta ← read_state
    off ← ext.blinding_factor.read
    opts ← read_fields
    sigs ← read_sigs
    structs ← read_structs
    feat_args ← read_some (read_uint 8) (opts.feat == 2)
    pure (record {
      version = version;
      block_header_version = block_header_version;
      id = id;
      sta = sta;
      off = off;
      num_parts = opts.num_parts;
      amt = opts.amt;
      fee = opts.fee;
      feat = opts.feat;
      ttl = opts.ttl;
      sigs = sigs;
      coms = structs.0;
      proof = structs.1;
      feat_args = feat_args;
    })
