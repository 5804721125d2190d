-- ===== src/Wire/Growth.antt =====
-- The encoders only append.
use simple_dnsd.Base.{
  ℕ, ◌≤◌, ◌+◌, ◌≡◌, ◌/◌, ◌^◌, bit_and, bit_or, Bool, true, false, none, some, Option, List, [], ◌∷◌,
  ◌++◌, Bytes, length, length-append, arith, Option-cases, inl, inr,
}
use simple_dnsd.StringMap.{lookup}
use simple_dnsd.Name.{DnsName}
use simple_dnsd.Wire.{
  put16, put32, to_u8, Compression, encode_labels, encode_uncompressed, note_suffix, suffix_key,
  encode_compressed, encode_name,
}

pub length-put16 : (out : Bytes) (v : ℕ) → length (put16 out v) ≡ length out + 2
unfolding put16
length-put16 out v =
    omega (arith, length-append out (to_u8 (v / 2 ^ 8) ∷ to_u8 (bit_and v 0xff) ∷ []))

length-four : (out : Bytes) (a b c d : ℕ) → length (out ++ (a ∷ b ∷ c ∷ d ∷ [])) ≡ length out + 4
length-four out a b c d = length-append out (a ∷ b ∷ c ∷ d ∷ [])

pub length-put32 : (out : Bytes) (v : ℕ) → length (put32 out v) ≡ length out + 4
unfolding put32
length-put32 out v =
    length-four out (to_u8 (v / 2 ^ 24)) (to_u8 (v / 2 ^ 16)) (to_u8 (v / 2 ^ 8))
      (to_u8 (bit_and v 0xff))

encode_labels-grows :
    (out : Bytes) (labels : List Bytes) → length out ≤ length (encode_labels out labels).1
unfolding encode_labels
encode_labels-grows out [] = omega (arith, length-append out (0 ∷ []))
encode_labels-grows out (l ∷ labels) =
    let out' = out ++ (to_u8 (length l) ∷ l) in
    ground (arith, encode_labels-grows out' labels, length-append out (to_u8 (length l) ∷ l))

encode_compressed-grows :
    (out : Bytes) (labels : List Bytes) (c : Compression)
    → length out ≤ length (encode_compressed out labels c).1
unfolding encode_compressed
encode_compressed-grows out [] c = omega (arith, length-append out (0 ∷ []))
encode_compressed-grows out (l ∷ labels) c =
    let key = suffix_key (l ∷ labels) in
    let out' = out ++ (to_u8 (length l) ∷ l) in
    let further = encode_compressed-grows out' labels (note_suffix out key c) in
    let step = length-append out (to_u8 (length l) ∷ l) in
    elim (Option-cases (lookup key c)) [
      | inl e ↦ ground (arith, further, step)
      | inr (at, e) ↦ ground (arith, further, step, length-put16 out (bit_or 0xC000 at))
    ]

pub encode_name-grows :
    (out : Bytes) (n : DnsName) (c : Option Compression) (compress : Bool)
    → length out ≤ length (encode_name out n c compress).1
unfolding encode_name encode_uncompressed
encode_name-grows out n none compress = encode_labels-grows out n.labels
encode_name-grows out n (some c) false = encode_labels-grows out n.labels
encode_name-grows out n (some c) true = encode_compressed-grows out n.labels c
