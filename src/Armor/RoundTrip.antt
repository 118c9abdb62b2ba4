-- ===== src/Armor/RoundTrip.antt =====
-- What is armored is read back (libwallet/src/slatepack/armor.rs).
use mathlib.Core.List.{append_assoc}
use grin_wallet.Prelude.{
  ℕ, zero, suc, ◌+◌, ◌≡◌, ◌⊎◌, inl, inr, refl, ap, ◌∙◌, false, not, some, [], ◌∷◌, ◌++◌, ltb, ◌==◌,
  length, length-append, take-append-drop, Option-cases, Bool-cases, sym, length-take, take, drop,
  take_while, filter, All, arith,
}
use grin_wallet.Prelude.Result.{ok}
use grin_wallet.Bytes.{Bytes, bytes_eq, bytes_eq_refl, bytes_eq→eq}
use grin_wallet.Armor.{
  Digests, dot, begin_word, end_word, header, footer, is_whitespace, get_from, until_dot, separator,
  format_from, generate_check, error_check, base58check, decode_payload, decode, encode,
}

abbrev pub IsText : ℕ → Type 0
IsText b = ((b == dot) ≡ false) × (is_whitespace b ≡ false)

-- What the crates document: decoding undoes encoding, the alphabet of base58 has neither the period nor
-- white space, and a digest has 32 bytes.
pub record IsDigests (d : Digests) : Type 0 where
  pub undoes : (bs : Bytes) → d.b58_decode (d.b58_encode bs) ≡ some bs
  pub alphabet : (bs : Bytes) → All IsText (d.b58_encode bs)
  pub digest : (bs : Bytes) → length (d.sha256 bs) ≡ 32

until_dot-append :
    (xs ys : Bytes) → All (λ b. (b == dot) ≡ false) xs → until_dot (xs ++ (dot ∷ ys)) ≡ xs
unfolding take_while
until_dot-append [] ys h = refl
until_dot-append (x ∷ xs) ys (p, h) = rw p (ap (λ l. x ∷ l) (until_dot-append xs ys h))

none_left : (n : ℕ) → suc n ≡ 0 + 1 → n ≡ 0
none_left n e = omega (arith, e)

drop_past : (n : ℕ) (xs ys : Bytes) (z : ℕ) → n ≡ length xs + 1 → drop n (xs ++ (z ∷ ys)) ≡ ys
drop_past zero xs ys z e = absurd (omega (arith, e))
drop_past (suc n) [] ys z e = ap (λ m. drop m ys) (none_left n e)
drop_past (suc n) (x ∷ xs) ys z e = drop_past n xs ys z (omega (arith, e))

get_past :
    (n : ℕ) (xs ys : Bytes) (z : ℕ) → n ≡ length xs + 1 → get_from n (xs ++ (z ∷ ys)) ≡ some ys
get_past n xs ys z e = ground (arith, e, length-append xs (z ∷ ys), drop_past n xs ys z e)

separator-cases : (i : ℕ) → (separator i ≡ []) ⊎ ((separator i ≡ 10 ∷ []) ⊎ (separator i ≡ 32 ∷ []))
separator-cases i = ground arith

format_from-clean :
    (i : ℕ) (cs : Bytes)
    → All IsText cs
    → filter (λ b. not (is_whitespace b)) (format_from i cs) ≡ cs
unfolding format_from filter
format_from-clean i [] h = refl
format_from-clean i (c ∷ cs) ((p, q), h) =
    let rest = ap (λ l. c ∷ l) (format_from-clean (i + 1) cs h) in
    elim (separator-cases i) [
      | inl e ↦ rw e (rw q rest)
      | inr (inl e) ↦ rw e (rw q rest)
      | inr (inr e) ↦ rw e (rw q rest)
    ]

format_from-dots :
    (i : ℕ) (cs : Bytes) → All IsText cs → All (λ b. (b == dot) ≡ false) (format_from i cs)
unfolding format_from
format_from-dots i [] h = tt
format_from-dots i (c ∷ cs) ((p, q), h) = elim (separator-cases i) [
  | inl e ↦ rw e (p, format_from-dots (i + 1) cs h)
  | inr (inl e) ↦ rw e (refl, (p, format_from-dots (i + 1) cs h))
  | inr (inr e) ↦ rw e (refl, (p, format_from-dots (i + 1) cs h))
]

format-header : (s : Bytes) → format_from 0 (header ++ s) ≡ header ++ format_from 15 s
unfolding format_from
format-header s = refl

take_front : (n : ℕ) (xs ys : Bytes) → length xs ≡ n → take n (xs ++ ys) ≡ xs
take_front zero [] ys e = refl
take_front zero (x ∷ xs) ys e = absurd (omega (arith, e))
take_front (suc n) [] ys e = absurd (omega (arith, e))
take_front (suc n) (x ∷ xs) ys e = ap (λ l. x ∷ l) (take_front n xs ys (omega (arith, e)))

drop_front : (n : ℕ) (xs ys : Bytes) → length xs ≡ n → drop n (xs ++ ys) ≡ ys
drop_front zero [] ys e = refl
drop_front zero (x ∷ xs) ys e = absurd (omega (arith, e))
drop_front (suc n) [] ys e = absurd (omega (arith, e))
drop_front (suc n) (x ∷ xs) ys e = drop_front n xs ys (omega (arith, e))

abbrev armor_of : Bytes → Bytes → Bytes
armor_of payload rest =
    begin_word ++ (dot ∷ (payload ++ (dot ∷ ((32 ∷ end_word) ++ (dot ∷ 10 ∷ rest)))))

module _ (d : Digests) (is : IsDigests d) where
  check_length : (bs : Bytes) → length (generate_check d bs) ≡ 4
  unfolding generate_check
  check_length bs = omega (arith, length-take 4 (d.sha256 (d.sha256 bs)), is.digest (d.sha256 bs))

  long_enough : (bs : Bytes) → ltb (length (generate_check d bs ++ bs)) 4 ≡ false
  long_enough bs = ground (arith, check_length bs, length-append (generate_check d bs) bs)

  check_passes : (bs : Bytes) → error_check d (generate_check d bs) bs ≡ ok tt
  unfolding error_check
  check_passes bs = rw (bytes_eq_refl (generate_check d bs)) refl

  pub payload_back :
      (i : ℕ) (bs : Bytes) → decode_payload d (format_from i (base58check d bs)) ≡ ok bs
  unfolding decode_payload base58check
  payload_back i bs =
      let c = generate_check d bs in
      rw (format_from-clean i (d.b58_encode (c ++ bs)) (is.alphabet (c ++ bs))) (
        rw (is.undoes (c ++ bs)) (
          rw (long_enough bs) (
            rw (take_front 4 c bs (check_length bs))
              (rw (drop_front 4 c bs (check_length bs)) (rw (check_passes bs) refl)))))

  frame_back :
      (payload rest : Bytes)
      → All (λ b. (b == dot) ≡ false) payload
      → decode d (armor_of payload rest) ≡ decode_payload d payload
  unfolding decode take_while
  frame_back payload rest h =
      let foot : Bytes = (32 ∷ end_word) ++ (dot ∷ 10 ∷ rest) in
      rw (get_past 15 begin_word (payload ++ (dot ∷ foot)) dot refl) (
        rw (until_dot-append payload foot h) (
          rw
            (get_past (15 + length payload + 1) (begin_word ++ (dot ∷ payload)) foot dot
              (omega arith))
            refl))

  -- What an armored slatepack is decoded to is what was armored, whatever follows the armor, where
  -- base58 and SHA-256 do what they document.
  pub decode-encode : (bs rest : Bytes) → decode d (encode d bs ++ rest) ≡ ok bs
  unfolding encode
  decode-encode bs rest =
      let text : Bytes = d.b58_encode (generate_check d bs ++ bs) in
      ap (λ x. decode d (begin_word ++ (dot ∷ x)))
        (append_assoc (format_from 15 text) (footer ++ (10 ∷ [])) rest)
      ∙ frame_back (format_from 15 text) rest
          (format_from-dots 15 text (is.alphabet (generate_check d bs ++ bs)))
      ∙ payload_back 15 bs

module _ (d : Digests) where
  -- Whatever a payload is decoded to stood, in what base58 made of the payload without its white
  -- space, behind its own check code.
  pub decode_payload-checked :
      (payload bs : Bytes)
      → decode_payload d payload ≡ ok bs
      → d.b58_decode (filter (λ b. not (is_whitespace b)) payload)
        ≡ some (generate_check d bs ++ bs)
  unfolding decode_payload error_check
  decode_payload-checked payload bs e =
      elim (Option-cases (d.b58_decode (filter (λ b. not (is_whitespace b)) payload))) [
        | inl n ↦ ground (arith, n)
        | inr (raw, s) ↦ elim (Bool-cases (bytes_eq (take 4 raw) (generate_check d (drop 4 raw)))) [
          | inl c ↦
              let back : drop 4 raw ≡ bs = ground (arith, s, c) in
              s
              ∙ ap some (
                  sym (take-append-drop 4 raw)
                  ∙ ap (λ x. x ++ drop 4 raw)
                      (bytes_eq→eq (take 4 raw) (generate_check d (drop 4 raw)) c)
                  ∙ ap (λ x. generate_check d x ++ x) back)
          | inr c ↦ ground (arith, s, c)
        ]
      ]
