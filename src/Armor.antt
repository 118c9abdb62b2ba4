-- ===== src/Armor.antt =====
-- The armor of a slatepack (libwallet/src/slatepack/armor.rs): text as its bytes. Base58 and SHA-256
-- are parameters; the regular expressions of the framing are matched by hand, since their parts
-- share no byte.
pub mod RoundTrip
use grin_wallet.Prelude.{
  ℕ, zero, suc, ◌+◌, ◌%◌, Bool, true, false, not, Option, none, some, List, [], ◌∷◌, ◌++◌, ◌&&◌,
  ◌||◌, ltb, leb, ◌==◌, if◌then◌else◌, length, take, drop, take_while, filter,
}
use grin_wallet.Prelude.Result.{
  Result, ok, err, invalid_slatepack_data, slatepack_deser, ok_or, ◌>>=◌, ◌>>◌,
}
use grin_wallet.Bytes.{Bytes, bytes_eq}

-- The crates bs58 and sha2.
pub record Digests : Type 0 where
  pub b58_encode : Bytes → Bytes
  pub b58_decode : Bytes → Option Bytes
  pub sha256 : Bytes → Bytes

abbrev pub dot : ℕ
dot = 46

-- `BEGINSLATEPACK` and `ENDSLATEPACK`
abbrev pub begin_word : Bytes
begin_word = 66 ∷ 69 ∷ 71 ∷ 73 ∷ 78 ∷ 83 ∷ 76 ∷ 65 ∷ 84 ∷ 69 ∷ 80 ∷ 65 ∷ 67 ∷ 75 ∷ []

abbrev pub end_word : Bytes
end_word = 69 ∷ 78 ∷ 68 ∷ 83 ∷ 76 ∷ 65 ∷ 84 ∷ 69 ∷ 80 ∷ 65 ∷ 67 ∷ 75 ∷ []

abbrev pub header : Bytes
header = begin_word ++ (dot ∷ [])

abbrev pub footer : Bytes
footer = dot ∷ 32 ∷ (end_word ++ (dot ∷ []))

-- `[>\n\r\t ]`
abbrev pub is_whitespace : ℕ → Bool
is_whitespace b = (b == 62) || ((b == 10) || ((b == 13) || ((b == 9) || (b == 32))))

-- The ranges of the bytes that follow a first byte of a character, if it is one.
abbrev following : ℕ → Option (List (ℕ × ℕ))
following b =
    if ltb b 128
    then some []
    else if leb 194 b && leb b 223
    then some ((128, 191) ∷ [])
    else if b == 224
    then some ((160, 191) ∷ (128, 191) ∷ [])
    else if b == 237
    then some ((128, 159) ∷ (128, 191) ∷ [])
    else if leb 225 b && leb b 239
    then some ((128, 191) ∷ (128, 191) ∷ [])
    else if b == 240
    then some ((144, 191) ∷ (128, 191) ∷ (128, 191) ∷ [])
    else if leb 241 b && leb b 243
    then some ((128, 191) ∷ (128, 191) ∷ (128, 191) ∷ [])
    else if b == 244
    then some ((128, 143) ∷ (128, 191) ∷ (128, 191) ∷ [])
    else none

-- `str::from_utf8` succeeds.
unfoldable pub is_utf8 : List (ℕ × ℕ) → Bytes → Bool
is_utf8 [] [] = true
is_utf8 (r ∷ rs) [] = false
is_utf8 [] (b ∷ bs) = elim (following b) [ none ↦ false | some rs ↦ is_utf8 rs bs ]
is_utf8 (r ∷ rs) (b ∷ bs) = let rest = is_utf8 rs bs in leb r.0 b && (leb b r.1 && rest)

unfoldable pub all_whitespace : Bytes → Bool
all_whitespace [] = true
all_whitespace (b ∷ bs) = let rest = all_whitespace bs in is_whitespace b && rest

-- The word, then white space to the end.
unfoldable pub matches_word : Bytes → Bytes → Bool
unfolding all_whitespace
matches_word [] bs = all_whitespace bs
matches_word (w ∷ ws) [] = false
matches_word (w ∷ ws) (b ∷ bs) = let rest = matches_word ws bs in (w == b) && rest

-- `^[ws]*WORD[ws]*$`
unfoldable pub is_match : Bytes → Bytes → Bool
unfolding matches_word
is_match word [] = matches_word word []
is_match word (b ∷ bs) =
    let rest = is_match word bs in if is_whitespace b then rest else matches_word word (b ∷ bs)

unfoldable pub check_framing : Bytes → Bytes → Result (Unit {0})
unfolding is_utf8 is_match
check_framing word framing =
    if is_utf8 [] framing
    then (if is_match word framing then ok tt else err invalid_slatepack_data)
    else err slatepack_deser

-- `get(n..)`
abbrev pub get_from : ℕ → Bytes → Option Bytes
get_from n bs = if leb n (length bs) then some (drop n bs) else none

abbrev pub until_dot : Bytes → Bytes
until_dot bs = take_while (λ b. not (b == dot)) bs

-- Every 15 characters a space, every 3000 a new line.
abbrev separator : ℕ → Bytes
separator i =
    if not (i == 0) && (i % 15 == 0) then (if i % 3000 == 0 then 10 ∷ [] else 32 ∷ []) else []

unfoldable pub format_from : ℕ → Bytes → Bytes
format_from i [] = []
format_from i (c ∷ cs) = separator i ++ (c ∷ format_from (i + 1) cs)

module _ (d : Digests) where
  unfoldable pub generate_check : Bytes → Bytes
  generate_check payload = take 4 (d.sha256 (d.sha256 payload))

  unfoldable pub error_check : Bytes → Bytes → Result (Unit {0})
  unfolding generate_check
  error_check error_code slate_bytes =
      if bytes_eq error_code (generate_check slate_bytes) then ok tt else err invalid_slatepack_data

  unfoldable pub base58check : Bytes → Bytes
  unfolding generate_check
  base58check slate = d.b58_encode (generate_check slate ++ slate)

  -- The payload between the periods, cleaned and decoded.
  unfoldable pub decode_payload : Bytes → Result Bytes
  unfolding error_check
  decode_payload payload_bytes = do
    base_decode ←
        ok_or (d.b58_decode (filter (λ b. not (is_whitespace b)) payload_bytes)) slatepack_deser
    if ltb (length base_decode) 4
        then err slatepack_deser
        else (do error_check (take 4 base_decode) (drop 4 base_decode); ok (drop 4 base_decode))

  unfoldable pub decode : Bytes → Result Bytes
  unfolding check_framing decode_payload
  decode armor_bytes =
      let header_bytes = until_dot armor_bytes in
      do
        check_framing begin_word header_bytes
        payload_source ←
            ok_or (get_from (length header_bytes + 1) armor_bytes) invalid_slatepack_data
        footer_source ←
            ok_or
              (get_from (length header_bytes + 1 + length (until_dot payload_source) + 1)
                armor_bytes)
              invalid_slatepack_data
        check_framing end_word (until_dot footer_source)
        decode_payload (until_dot payload_source)

  -- `encode`, from the binary form of the slatepack on
  unfoldable pub encode : Bytes → Bytes
  unfolding base58check format_from
  encode slatepack_bytes =
      format_from 0 (header ++ base58check slatepack_bytes) ++ (footer ++ (10 ∷ []))
