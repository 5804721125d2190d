-- ===== src/Tsig/Base64/RoundTrip.antt =====
-- What `encodeBase64` writes, `decodeBase64` reads back.
use mathlib.Core.List.{append_assoc, append-nil}
use simple_dnsd.Base.{
  length, refl, ap, sym, ◌∙◌, [], ◌++◌, all_of, ℕ, zero, suc, ◌+◌, ◌-◌, ◌*◌, ◌/◌, ◌%◌, ◌^◌, ◌<◌,
  ◌≡◌, refl, Bool, true, false, not, ◌&&◌, none, some, ◌∷◌, ◌==◌, Bytes, arith, Option-cases,
  Bool-cases, ltb, inl, inr, ◌≤◌,
}
use simple_dnsd.Tsig.Base64.{
  encode_from, take_letters, pad, encode_base64, decode_base64, value_of, is_skipped, decode_from,
  letter,
}

-- The letter of six bits is not skipped, and has their value.
reads : ℕ → Bool
unfolding value_of is_skipped letter
reads i =
    not (is_skipped (letter i)) && (elim (value_of (letter i)) [ none ↦ false | some j ↦ j == i ])

reads_upto : ℕ → Bool
reads_upto zero = true
reads_upto (suc n) = reads_upto n && reads n

reads_all : reads_upto 64 ≡ true
unfolding reads_upto reads
reads_all = refl

reads_lt : (n i : ℕ) → reads_upto n ≡ true → i < n → reads i ≡ true
unfolding reads_upto
reads_lt zero i h lt = absurd (omega arith)
reads_lt (suc n) i h lt = ground (arith, reads_lt n i)

letter_mod : (i : ℕ) → letter (i % 64) ≡ letter i
unfolding letter
letter_mod i = let same : i % 64 % 64 ≡ i % 64 = omega arith in rw same

opened :
    (c j : ℕ)
    → (not (is_skipped c) && (elim (value_of c) [ none ↦ false | some k ↦ k == j ])) ≡ true
    → (is_skipped c ≡ false) × (value_of c ≡ some j)
opened c j h = elim (Option-cases (value_of c)) [ inl e ↦ ground arith | inr (k, e) ↦ ground arith ]

value_of-letter : (i : ℕ) → (is_skipped (letter i) ≡ false) × (value_of (letter i) ≡ some (i % 64))
value_of-letter i = rw (← letter_mod i) (
    opened (letter (i % 64)) (i % 64)
      (unfold reads in reads_lt 64 (i % 64) reads_all (omega arith)))

-- One letter, with the bits that wait before it.
module _ (w i : ℕ) (s : Bytes) where
  abbrev next : ℕ
  next = (w * 2 ^ 6 + i % 64) % 2 ^ 32

  decode_first : decode_from w 0 (letter i ∷ s) ≡ decode_from next 6 s
  unfolding decode_from
  decode_first = let (e, f) = value_of-letter i in ground (arith, e, f)

  decode_later :
      (bits : ℕ)
      → 2 ≤ bits
      → decode_from w bits (letter i ∷ s) ≡ (
        (decode_from next (bits - 2) s).0,
        next / 2 ^ (bits - 2) % 2 ^ 8 ∷ (decode_from next (bits - 2) s).1,
      )
  unfolding decode_from
  decode_later bits h = let (e, f) = value_of-letter i in ground (arith, e, f)

-- Four letters in a row are three bytes.
decode_four :
    (w i j k l : ℕ) (s : Bytes)
    → let w1 = next w i s in
      let w2 = next w1 j s in
      let w3 = next w2 k s in
      let w4 = next w3 l s in
      decode_from w 0 (letter i ∷ letter j ∷ letter k ∷ letter l ∷ s) ≡ (
        (decode_from w4 0 s).0,
        w2 / 2 ^ 4 % 2 ^ 8 ∷ w3 / 2 ^ 2 % 2 ^ 8 ∷ w4 / 2 ^ 0 % 2 ^ 8 ∷ (decode_from w4 0 s).1,
      )
decode_four w i j k l s =
    let w1 = next w i s in
    let w2 = next w1 j s in
    let w3 = next w2 k s in
    cc (
      decode_first w i (letter j ∷ letter k ∷ letter l ∷ s),
      decode_later w1 j (letter k ∷ letter l ∷ s) 6 (omega arith),
      decode_later w2 k (letter l ∷ s) 4 (omega arith),
      decode_later w3 l s 2 (omega arith),
    )

-- Signs of equality behind the letters.
abbrev Padding : Bytes → Type 0
Padding t = all_of (λ c. c == b'=') t ≡ true

decode-Padding : (w bits : ℕ) (t : Bytes) → Padding t → decode_from w bits t ≡ (true, [])
unfolding decode_from is_skipped
decode-Padding w bits [] h = refl
decode-Padding w bits (c ∷ t) h = ground (arith, decode-Padding w bits t)

-- Two and three letters before the padding.
module _ (w i j : ℕ) (t : Bytes) (p : Padding t) where
  decode_two :
      decode_from w 0 (letter i ∷ letter j ∷ t) ≡ (true, next (next w i t) j t / 2 ^ 4 % 2 ^ 8 ∷ [])
  decode_two = cc (
    decode_first w i (letter j ∷ t),
    decode_later (next w i t) j t 6 (omega arith),
    decode-Padding (next (next w i t) j t) 4 t p,
  )

  decode_three :
      (k : ℕ)
      → let w2 = next (next w i t) j t in
        decode_from w 0 (letter i ∷ letter j ∷ letter k ∷ t)
        ≡ (true, w2 / 2 ^ 4 % 2 ^ 8 ∷ next w2 k t / 2 ^ 2 % 2 ^ 8 ∷ [])
  decode_three k =
      let w2 = next (next w i t) j t in
      cc (
        decode_first w i (letter j ∷ letter k ∷ t),
        decode_later (next w i t) j (letter k ∷ t) 6 (omega arith),
        decode_later w2 k t 4 (omega arith),
        decode-Padding (next w2 k t) 2 t p,
      )

three_in_front :
    {x y z a b c : ℕ} {r : Bool × Bytes} {s : Bytes}
    → x ≡ a
    → y ≡ b
    → z ≡ c
    → r ≡ (true, s)
    → ◌≡◌ {A = Bool × Bytes} (r.0, x ∷ y ∷ z ∷ r.1) (true, a ∷ b ∷ c ∷ s)
three_in_front ha hb hc e = cc

-- The six bits that the encoder cuts from three bytes give the bytes back.
module _ (v w a b c : ℕ) (ha : a < 256) (hb : b < 256) (hc : c < 256) where
  abbrev v1 : ℕ
  v1 = (v * 2 ^ 8 + a) % 2 ^ 32

  abbrev v2 : ℕ
  v2 = (v1 * 2 ^ 8 + b) % 2 ^ 32

  abbrev v3 : ℕ
  v3 = (v2 * 2 ^ 8 + c) % 2 ^ 32

  abbrev w1 : ℕ
  w1 = (w * 2 ^ 6 + v1 / 2 ^ 2 % 64) % 2 ^ 32

  abbrev w2 : ℕ
  w2 = (w1 * 2 ^ 6 + v2 / 2 ^ 4 % 64) % 2 ^ 32

  abbrev w3 : ℕ
  w3 = (w2 * 2 ^ 6 + v3 / 2 ^ 6 % 64) % 2 ^ 32

  abbrev w4 : ℕ
  w4 = (w3 * 2 ^ 6 + v3 / 2 ^ 0 % 64) % 2 ^ 32

  first_byte : w2 / 2 ^ 4 % 2 ^ 8 ≡ a
  first_byte = omega arith

  second_byte : w3 / 2 ^ 2 % 2 ^ 8 ≡ b
  second_byte = omega arith

  third_byte : w4 / 2 ^ 0 % 2 ^ 8 ≡ c
  third_byte = omega arith

  encode_three :
      (s : Bytes)
      → encode_from v 0 (a ∷ b ∷ c ∷ s)
        ≡ letter (v1 / 2 ^ 2)
          ∷ letter (v2 / 2 ^ 4)
          ∷ letter (v3 / 2 ^ 6)
          ∷ letter (v3 / 2 ^ 0)
          ∷ encode_from v3 0 s
  unfolding encode_from take_letters
  encode_three s = refl

  last_one : (w1 * 2 ^ 6 + v1 * 2 ^ 8 % 2 ^ 32 / 2 ^ 4 % 64) % 2 ^ 32 / 2 ^ 4 % 2 ^ 8 ≡ a
  last_one = omega arith

  last_two : (w2 * 2 ^ 6 + v2 * 2 ^ 8 % 2 ^ 32 / 2 ^ 6 % 64) % 2 ^ 32 / 2 ^ 2 % 2 ^ 8 ≡ b
  last_two = omega arith

  one_byte :
      (t : Bytes) → Padding t → decode_from w 0 (encode_from v 0 (a ∷ []) ++ t) ≡ (true, a ∷ [])
  unfolding encode_from take_letters
  one_byte t p =
      decode_two w (v1 / 2 ^ 2) (v1 * 2 ^ 8 % 2 ^ 32 / 2 ^ 4) t p
      ∙ ap (λ (x : ℕ). (true, x ∷ [])) last_one

  two_bytes :
      (t : Bytes)
      → Padding t
      → decode_from w 0 (encode_from v 0 (a ∷ b ∷ []) ++ t) ≡ (true, a ∷ b ∷ [])
  unfolding encode_from take_letters
  two_bytes t p =
      decode_three w (v1 / 2 ^ 2) (v2 / 2 ^ 4) t p (v2 * 2 ^ 8 % 2 ^ 32 / 2 ^ 6)
      ∙ cc (first_byte, last_two)

  three_bytes :
      (s t : Bytes)
      → decode_from w4 0 (encode_from v3 0 s ++ t) ≡ (true, s)
      → decode_from w 0 (encode_from v 0 (a ∷ b ∷ c ∷ s) ++ t) ≡ (true, a ∷ b ∷ c ∷ s)
  unfolding encode_from take_letters
  three_bytes s t e =
      decode_four w (v1 / 2 ^ 2) (v2 / 2 ^ 4) (v3 / 2 ^ 6) (v3 / 2 ^ 0) (encode_from v3 0 s ++ t)
      ∙ three_in_front first_byte second_byte third_byte e

pad-Padding : (fuel : ℕ) (out : Bytes) → (t : Bytes) × Padding t × (pad fuel out ≡ out ++ t)
unfolding pad
pad-Padding zero out = ([], refl, sym (append-nil out))
pad-Padding (suc fuel) out =
    let (t, h, e) = pad-Padding fuel (out ++ b'=' ∷ []) in
    elim (Bool-cases (length out % 4 == 0)) [
      | inl f ↦ ([], refl, rw f (sym (append-nil out)))
      | inr f ↦ (b'=' ∷ t, h, rw f (e ∙ append_assoc out (b'=' ∷ []) t))
    ]

decode_from-encode_from :
    (v w : ℕ) (s t : Bytes)
    → all_of (λ c. ltb c 256) s ≡ true
    → Padding t
    → decode_from w 0 (encode_from v 0 s ++ t) ≡ (true, s)
decode_from-encode_from v w [] t h p = unfold encode_from in decode-Padding w 0 t p
decode_from-encode_from v w (a ∷ []) t h p =
    one_byte v w a 0 0 (ground arith) (omega arith) (omega arith) t p
decode_from-encode_from v w (a ∷ b ∷ []) t h p =
    two_bytes v w a b 0 (ground arith) (ground arith) (omega arith) t p
decode_from-encode_from v w (a ∷ b ∷ c ∷ s) t h p =
    let ha : a < 256 = ground arith in
    let hb : b < 256 = ground arith in
    let hc : c < 256 = ground arith in
    three_bytes v w a b c ha hb hc s t
      (decode_from-encode_from (v3 v w a b c ha hb hc) (w4 v w a b c ha hb hc) s t (ground arith) p)

-- The text that `encodeBase64` writes of any bytes is accepted by `decodeBase64`, which gives the
-- bytes back.
pub decode_base64-encode_base64 :
    (s : Bytes) → all_of (λ c. ltb c 256) s ≡ true → decode_base64 (encode_base64 s) ≡ (true, s)
unfolding decode_base64 encode_base64
decode_base64-encode_base64 s h =
    let (t, p, e) = pad-Padding 3 (encode_from 0 0 s) in
    ap (λ (u : Bytes). decode_from 0 0 u) e ∙ decode_from-encode_from 0 0 s t h p
