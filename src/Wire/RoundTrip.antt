-- ===== src/Wire/RoundTrip.antt =====
-- A name that is encoded with no compression is decoded to itself.
use mathlib.Core.List.{append_assoc, append-nil}
use simple_dnsd.Base.{
  ℕ, zero, suc, ◌+◌, ◌<◌, and-top_two, ◌≡◌, refl, sym, ap, ◌∙◌, Bool, true, not, ◌&&◌, some, List,
  [], ◌∷◌, ◌++◌, leb, if◌then◌else◌, Bytes, length, all_of, is_empty, length-append, get_or-past,
  drop-past, take-length_append, arith,
}
use simple_dnsd.Name.{DnsName, root, to_string}
use simple_dnsd.Name.Presentation.{plain_label, IsPlain, parse-to_string}
use simple_dnsd.Wire.{
  to_u8, encode_labels, encode_uncompressed, decode_from, decode_name, name_of_labels,
}

-- A label that fits the wire, and a name of such labels.
abbrev pub fits_wire : Bytes → Bool
fits_wire l = not (is_empty l) && leb (length l) 63

abbrev pub FitsWire : DnsName → Type 0
FitsWire n = all_of fits_wire n.labels ≡ true

-- What the labels are on the wire.
abbrev pub wire_of : List Bytes → Bytes
wire_of [] = 0 ∷ []
wire_of (l ∷ ls) = length l ∷ (l ++ wire_of ls)

encode_labels-wire_of :
    (ls : List Bytes) (out : Bytes)
    → all_of fits_wire ls ≡ true
    → encode_labels out ls ≡ (true, out ++ wire_of ls)
unfolding encode_labels
encode_labels-wire_of [] out h = refl
encode_labels-wire_of (l ∷ ls) out h = ground (
  arith,
  encode_labels-wire_of ls (out ++ (to_u8 (length l) ∷ l)),
  append_assoc out (length l ∷ l) (wire_of ls),
)

-- The name that the decoder makes of the labels that it has read.
abbrev pub named : List Bytes → DnsName
named labels = if is_empty labels then root else name_of_labels labels

-- One round over a label.
decode_from-label :
    (hops fuel : ℕ) (front l rest : Bytes) (acc : List Bytes)
    → fits_wire l ≡ true
    → decode_from (suc hops) (suc fuel) (front ++ (length l ∷ (l ++ rest))) (length front) acc
      ≡ decode_from
          (suc hops)
          fuel
          (front ++ (length l ∷ (l ++ rest)))
          (length front + 1 + length l)
          (acc ++ l ∷ [])
unfolding decode_from
decode_from-label hops fuel front l rest acc h =
    let inp = front ++ (length l ∷ (l ++ rest)) in
    ground (
      arith,
      get_or-past front (length l ∷ (l ++ rest)) (length front) 0 0 (omega arith),
      drop-past front (length l ∷ (l ++ rest)) (length front + 1) 1 (omega arith),
      take-length_append l rest,
      and-top_two (length l),
      length-append front (length l ∷ (l ++ rest)),
      length-append l rest,
    )

decode_from-end :
    (hops fuel : ℕ) (front rest : Bytes) (acc : List Bytes)
    → decode_from (suc hops) (suc fuel) (front ++ (0 ∷ rest)) (length front) acc
      ≡ some (named acc, length front + 1)
unfolding decode_from
decode_from-end hops fuel front rest acc = ground (
  arith,
  get_or-past front (0 ∷ rest) (length front) 0 0 (omega arith),
  length-append front (0 ∷ rest),
  and-top_two 0,
)

decode_from-wire_of :
    (ls : List Bytes) (hops fuel : ℕ) (front rest : Bytes) (acc : List Bytes)
    → all_of fits_wire ls ≡ true
    → length ls < fuel
    → decode_from (suc hops) fuel (front ++ (wire_of ls ++ rest)) (length front) acc
      ≡ some (named (acc ++ ls), length front + length (wire_of ls))
decode_from-wire_of ls hops zero front rest acc h f = absurd (omega arith)
decode_from-wire_of [] hops (suc fuel) front rest acc h f =
    rw append-nil (decode_from-end hops fuel front rest acc)
decode_from-wire_of (l ∷ ls) hops (suc fuel) front rest acc h f =
    let w = wire_of ls in
    let front' = front ++ (length l ∷ l) in
    let behind : length front + 1 + length l ≡ length front' =
      omega (arith, length-append front (length l ∷ l)) in
    ap
      (λ (t : Bytes).
        decode_from (suc hops) (suc fuel) (front ++ (length l ∷ t)) (length front) acc)
      (append_assoc l w rest)
    ∙ decode_from-label hops fuel front l (w ++ rest) acc (ground arith)
    ∙ ap
        (λ (t : Bytes). decode_from (suc hops) fuel t (length front + 1 + length l) (acc ++ l ∷ []))
        (sym (append_assoc front (length l ∷ l) (w ++ rest)))
    ∙ ap (λ (p : ℕ). decode_from (suc hops) fuel (front' ++ (w ++ rest)) p (acc ++ l ∷ [])) behind
    ∙ decode_from-wire_of ls hops fuel front' rest (acc ++ l ∷ []) (ground arith) (omega arith)
    ∙ ground
        (arith, append_assoc acc (l ∷ []) ls, length-append l w, length-append front (length l ∷ l))

length-wire_of : (ls : List Bytes) → length ls < length (wire_of ls)
length-wire_of [] = omega arith
length-wire_of (l ∷ ls) = omega (arith, length-wire_of ls, length-append l (wire_of ls))

named-IsPlain : (n : DnsName) → IsPlain n → named n.labels ≡ n
named-IsPlain n h = go n.labels h
  where
    go : (ls : List Bytes) → all_of plain_label ls ≡ true → named ls ≡ record { labels = ls }
    go [] h = refl
    go (l ∷ ls) h = unfold to_string in parse-to_string (record { labels = l ∷ ls }) true h

-- A name whose labels have 1 to 63 bytes and need no escape is encoded in full, behind any bytes, and
-- decoded from there it is the same name, with the offset of whatever follows.
pub decode_name-encode_uncompressed :
    (n : DnsName) (front rest : Bytes)
    → FitsWire n
    → IsPlain n
    → (out : Bytes) × (encode_uncompressed front n ≡ (true, out))
      × (decode_name (out ++ rest) (length front) ≡ some (n, length out))
unfolding encode_uncompressed decode_name
decode_name-encode_uncompressed n front rest fits plain =
    let w = wire_of n.labels in
    (
      front ++ w,
      encode_labels-wire_of n.labels front fits,
      ap (λ (t : Bytes). decode_from 21 (suc (length t)) t (length front) [])
            (append_assoc front w rest)
          ∙ decode_from-wire_of n.labels 20 (suc (length (front ++ (w ++ rest)))) front rest [] fits
              (omega (
                arith,
                length-wire_of n.labels,
                length-append front (w ++ rest),
                length-append w rest,
              ))
          ∙ ground (arith, named-IsPlain n plain, length-append front w),
    )
