-- ===== src/Wire.antt =====
-- The wire codec of src/simple-dnsd/protocol/dns.cpp for numbers and names. A buffer is its bytes; a
-- read takes an offset and returns the value with the offset behind it, or `none` for `false`.
pub mod Numbers
pub mod Bounds
pub mod Growth
pub mod RoundTrip
use simple_dnsd.Base.{
  ℕ, zero, suc, ◌+◌, ◌-◌, ◌*◌, ◌/◌, ◌%◌, ◌^◌, bit_and, bit_or, Bool, true, false, not, ◌&&◌, ◌||◌,
  Option, none, some, List, [], ◌∷◌, ◌++◌, ltb, leb, ◌==◌, if◌then◌else◌, Bytes, length, get_or,
  take, drop, is_empty,
}
use simple_dnsd.Text.{to_lower, join}
use simple_dnsd.Name.{DnsName, root, dot, parse}
use simple_dnsd.StringMap.{StringMap, lookup, insert}

-- `static_cast<uint8_t>`
abbrev pub to_u8 : ℕ → ℕ
to_u8 v = v % 2 ^ 8

unfoldable pub put16 : Bytes → ℕ → Bytes
put16 out v = out ++ (to_u8 (v / 2 ^ 8) ∷ to_u8 (bit_and v 0xff) ∷ [])

unfoldable pub put32 : Bytes → ℕ → Bytes
put32 out v =
    out
    ++ (to_u8 (v / 2 ^ 24) ∷ to_u8 (v / 2 ^ 16) ∷ to_u8 (v / 2 ^ 8) ∷ to_u8 (bit_and v 0xff) ∷ [])

unfoldable pub get16 : Bytes → ℕ → Option (ℕ × ℕ)
get16 inp off =
    if ltb (length inp) (off + 2)
    then none
    else some (bit_or (get_or inp off 0 * 2 ^ 8) (get_or inp (off + 1) 0), off + 2)

unfoldable pub get32 : Bytes → ℕ → Option (ℕ × ℕ)
get32 inp off =
    if ltb (length inp) (off + 4)
    then none
    else some (
      bit_or
          (bit_or (bit_or (get_or inp off 0 * 2 ^ 24) (get_or inp (off + 1) 0 * 2 ^ 16))
            (get_or inp (off + 2) 0 * 2 ^ 8))
          (get_or inp (off + 3) 0),
      off + 4,
    )

-- The loop of `suffixKey`: the labels that are left, lower-cased, with dots between them.
suffix_rest : List Bytes → Bytes
suffix_rest [] = []
suffix_rest (l ∷ labels) = b'.' ∷ (to_lower l ++ suffix_rest labels)

-- `suffixKey(labels, from)`, given the labels from `from` on.
unfoldable pub suffix_key : List Bytes → Bytes
unfolding suffix_rest to_lower
suffix_key [] = []
suffix_key (l ∷ labels) = to_lower l ++ suffix_rest labels

-- The buffer keeps what was written before a label that is too long.
encode_labels : Bytes → List Bytes → Bool × Bytes
encode_labels out [] = (true, out ++ (0 ∷ []))
encode_labels out (label ∷ labels) =
    let rest = encode_labels (out ++ (to_u8 (length label) ∷ label)) labels in
    if ltb 63 (length label) then (false, out) else rest

unfoldable pub encode_uncompressed : Bytes → DnsName → Bool × Bytes
unfolding encode_labels
encode_uncompressed out name = encode_labels out name.labels

abbrev pub Compression : Type 0
Compression = StringMap ℕ

-- `(*compression)[key] = out.size()`, made only at a place that a pointer can name.
note_suffix : Bytes → Bytes → Compression → Compression
unfolding insert
note_suffix out key compression =
    if ltb (length out) 0x4000 then insert key (length out % 2 ^ 16) compression else compression

-- The loop of `encodeName` over the labels that are left.
encode_compressed : Bytes → List Bytes → Compression → Bool × Bytes × Compression
unfolding note_suffix lookup suffix_key put16
encode_compressed out [] compression = (true, out ++ (0 ∷ []), compression)
encode_compressed out (label ∷ labels) compression =
    let key = suffix_key (label ∷ labels) in
    let noted = note_suffix out key compression in
    let rest = encode_compressed (out ++ (to_u8 (length label) ∷ label)) labels noted in
    let fresh = if ltb 63 (length label) then (false, out, noted) else rest in
    elim (lookup key compression) [
      | none ↦ fresh
      | some at ↦ if ltb at 0x4000 then (true, put16 out (bit_or 0xC000 at), compression) else fresh
    ]

-- `encodeName`; `compression` is `none` for a null pointer.
unfoldable pub encode_name :
    Bytes → DnsName → Option Compression → Bool → Bool × Bytes × Option Compression
unfolding encode_uncompressed encode_compressed
encode_name out name none compress =
    let (done, out') = encode_uncompressed out name in (done, out', none)
encode_name out name (some compression) false =
    let (done, out') = encode_uncompressed out name in (done, out', some compression)
encode_name out name (some compression) true =
    let (done, out', compression') = encode_compressed out name.labels compression in
    (done, out', some compression')

-- `DnsName::parse(join(labels, ".") + ".")`
abbrev pub name_of_labels : List Bytes → DnsName
name_of_labels labels = parse (join labels dot ++ dot)

-- `decodeName` from the loop's position `pos` with the labels read so far; it returns the name and
-- the offset behind its first part. `hops` is 21 less the pointers followed, and `fuel` bounds the
-- rounds of one loop: a round moves `pos`, which ends it at the end of the buffer. The source's flag
-- `jumped` is set only in the branch that returns.
unfoldable pub decode_from : ℕ → ℕ → Bytes → ℕ → List Bytes → Option (DnsName × ℕ)
unfolding parse join
decode_from zero fuel inp pos labels = none
decode_from (suc hops) zero inp pos labels = none
decode_from (suc hops) (suc fuel) inp pos labels =
    let len = get_or inp pos 0 in
    let ptr = bit_or (bit_and len 0x3F * 2 ^ 8) (get_or inp (pos + 1) 0) in
    let rest = decode_from hops (suc (length inp)) inp ptr [] in
    let label = take len (drop (pos + 1) inp) in
    let next = decode_from (suc hops) fuel inp (pos + 1 + len) (labels ++ label ∷ []) in
    if not (ltb pos (length inp))
    then none
    else if bit_and len 0xC0 == 0xC0
    then if leb (length inp) (pos + 1) then none else elim rest [
      | none ↦ none
      | some (target, off) ↦ some (name_of_labels (labels ++ target.labels), pos + 2)
    ]
    else if not (bit_and len 0xC0 == 0)
    then none
    else if len == 0
    then some (if is_empty labels then root else name_of_labels labels, pos + 1)
    else if ltb (length inp) (pos + 1 + len)
    then none
    else next

unfoldable pub decode_name : Bytes → ℕ → Option (DnsName × ℕ)
unfolding decode_from
decode_name inp offset = decode_from 21 (suc (length inp)) inp offset []
