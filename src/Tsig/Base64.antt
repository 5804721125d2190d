-- ===== src/Tsig/Base64.antt =====
-- `decodeBase64` and `encodeBase64` of src/simple-dnsd/protocol/tsig.cpp. The source counts the bits
-- that wait in `val` by `valb`, which starts below zero; `bits` is `valb + 8` in the decoder and
-- `valb + 6` in the encoder. `val` is an `int`, whose 32 bits the shifts keep.
pub mod RoundTrip
use simple_dnsd.Base.{
  ℕ, zero, suc, ◌+◌, ◌-◌, ◌*◌, ◌/◌, ◌%◌, ◌^◌, Bool, true, false, ◌||◌, Option, none, some, List, [],
  ◌∷◌, ◌++◌, leb, ltb, ◌==◌, if◌then◌else◌, Bytes, codes, get_or, length,
}

abbrev pub alphabet : Bytes
alphabet = codes "ABCDEFGHIJKLMNOPQRSTUVWXYZabcdefghijklmnopqrstuvwxyz0123456789+/"

-- `strchr(s, c) - s`, which finds the zero byte at the end as well.
unfoldable pub index_of : Bytes → ℕ → Option ℕ
index_of [] c = if c == 0 then some 0 else none
index_of (d ∷ s) c =
    if d == c then some 0 else elim (index_of s c) [ none ↦ none | some i ↦ some (suc i) ]

-- The value of a letter.
unfoldable pub value_of : ℕ → Option ℕ
unfolding index_of
value_of c = index_of alphabet c

unfoldable pub is_skipped : ℕ → Bool
is_skipped c = c == b'=' || c == 10 || c == 13 || c == 32

-- The loop of the decoder from the bits that wait; the bytes before a letter that is none stay.
unfoldable pub decode_from : ℕ → ℕ → Bytes → Bool × Bytes
unfolding value_of is_skipped
decode_from val bits [] = (true, [])
decode_from val bits (c ∷ s) = elim (is_skipped c) [
  | true ↦ decode_from val bits s
  | false ↦ elim (value_of c) [
    | none ↦ (false, [])
    | some i ↦
        (let val' = (val * 2 ^ 6 + i) % 2 ^ 32 in
          elim (leb 2 bits) [
            | true ↦
                (let (done, out) = decode_from val' (bits - 2) s in
                  (done, val' / 2 ^ (bits - 2) % 2 ^ 8 ∷ out))
            | false ↦ decode_from val' (bits + 6) s
          ])
  ]
]

unfoldable pub decode_base64 : Bytes → Bool × Bytes
decode_base64 s = decode_from 0 0 s

unfoldable pub letter : ℕ → ℕ
letter i = get_or alphabet (i % 2 ^ 6) 0

-- The inner loop, which takes six bits a round: the letters, and the bits that are left. No more than
-- twelve bits ever wait, so two rounds of fuel are enough.
unfoldable pub take_letters : ℕ → ℕ → ℕ → Bytes × ℕ
unfolding letter
take_letters zero val bits = ([], bits)
take_letters (suc fuel) val bits = elim (leb 6 bits) [
  | true ↦
      (let (letters, rest) = take_letters fuel val (bits - 6) in
        (letter (val / 2 ^ (bits - 6)) ∷ letters, rest))
  | false ↦ ([], bits)
]

unfoldable pub encode_from : ℕ → ℕ → Bytes → Bytes
unfolding take_letters letter
encode_from val bits [] =
    if ltb 0 bits then letter (val * 2 ^ 8 % 2 ^ 32 / 2 ^ (bits + 2)) ∷ [] else []
encode_from val bits (c ∷ s) =
    let val' = (val * 2 ^ 8 + c) % 2 ^ 32 in
    let (letters, rest) = take_letters 2 val' (bits + 8) in letters ++ encode_from val' rest s

-- `while (out.size() % 4 != 0) out.push_back('=')`, at most three times.
unfoldable pub pad : ℕ → Bytes → Bytes
pad zero out = out
pad (suc fuel) out =
    let rest = pad fuel (out ++ b'=' ∷ []) in if length out % 4 == 0 then out else rest

unfoldable pub encode_base64 : Bytes → Bytes
unfolding encode_from pad
encode_base64 s = pad 3 (encode_from 0 0 s)
