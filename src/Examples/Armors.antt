-- ===== src/Examples/Armors.antt =====
-- The round trip of the armor at a concrete payload. The base encoding of the example writes a number
-- as as many letters A and a B.
use grin_wallet.Prelude.{
  ℕ, zero, suc, ◌+◌, ◌≡◌, refl, ap, ◌∙◌, Option, none, some, [], ◌∷◌, ◌++◌, All, ◌==◌, not, filter,
  if◌then◌else◌, length, arith,
}
use grin_wallet.Prelude.Result.{ok}
use grin_wallet.Bytes.{Bytes, be_bytes, length-be_bytes}
use grin_wallet.Armor.{
  Digests, decode, encode, format_from, base58check, generate_check, is_whitespace,
}
use grin_wallet.Armor.RoundTrip.{
  IsDigests, IsText, decode-encode, payload_back, decode_payload-checked,
}

unary : ℕ → Bytes → Bytes
unary zero tail = 66 ∷ tail
unary (suc n) tail = 65 ∷ unary n tail

letters : Bytes → Bytes
unfolding unary
letters [] = []
letters (b ∷ bs) = unary b (letters bs)

abbrev with_head : ℕ → Option Bytes → Option Bytes
with_head b none = none
with_head b (some bs) = some (b ∷ bs)

numbers : ℕ → Bytes → Option Bytes
numbers seen [] = some []
numbers seen (c ∷ cs) =
    let next = numbers (suc seen) cs in
    let fresh = numbers 0 cs in if c == 66 then with_head seen fresh else next

numbers-unary :
    (seen n : ℕ) (tail : Bytes)
    → numbers seen (unary n tail) ≡ with_head (seen + n) (numbers 0 tail)
unfolding numbers unary
numbers-unary seen zero tail = ap (λ b. with_head b (numbers 0 tail)) (omega arith)
numbers-unary seen (suc n) tail =
    numbers-unary (suc seen) n tail ∙ ap (λ b. with_head b (numbers 0 tail)) (omega arith)

numbers-letters : (bs : Bytes) → numbers 0 (letters bs) ≡ some bs
unfolding numbers letters
numbers-letters [] = refl
numbers-letters (b ∷ bs) =
    numbers-unary 0 b (letters bs)
    ∙ ap (with_head (0 + b)) (numbers-letters bs)
    ∙ ap (λ a. some (a ∷ bs)) (omega arith)

unary-IsText : (n : ℕ) (tail : Bytes) → All IsText tail → All IsText (unary n tail)
unfolding unary
unary-IsText zero tail h = ((refl, refl), h)
unary-IsText (suc n) tail h = ((refl, refl), unary-IsText n tail h)

letters-IsText : (bs : Bytes) → All IsText (letters bs)
unfolding letters
letters-IsText [] = tt
letters-IsText (b ∷ bs) = unary-IsText b (letters bs) (letters-IsText bs)

abbrev digests : Digests
digests = record {
  b58_encode = letters;
  b58_decode = numbers 0;
  sha256 = λ bs. be_bytes 32 (length bs);
}

digests-IsDigests : IsDigests digests
digests-IsDigests = record {
  undoes = numbers-letters;
  alphabet = letters-IsText;
  digest = λ bs. length-be_bytes 32 (length bs);
}

decode-encode_example :
    decode digests (encode digests (1 ∷ 20 ∷ 3 ∷ []) ++ (88 ∷ 46 ∷ [])) ≡ ok (1 ∷ 20 ∷ 3 ∷ [])
decode-encode_example = decode-encode digests digests-IsDigests (1 ∷ 20 ∷ 3 ∷ []) (88 ∷ 46 ∷ [])

decode_payload-checked_example :
    numbers 0
      (filter (λ b. not (is_whitespace b)) (format_from 15 (base58check digests (1 ∷ 20 ∷ 3 ∷ []))))
    ≡ some (generate_check digests (1 ∷ 20 ∷ 3 ∷ []) ++ (1 ∷ 20 ∷ 3 ∷ []))
decode_payload-checked_example =
    decode_payload-checked digests (format_from 15 (base58check digests (1 ∷ 20 ∷ 3 ∷ [])))
      (1 ∷ 20 ∷ 3 ∷ []) (payload_back digests digests-IsDigests 15 (1 ∷ 20 ∷ 3 ∷ []))
