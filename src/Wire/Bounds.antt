-- ===== src/Wire/Bounds.antt =====
-- `decodeName` stays inside the buffer and ends.
use simple_dnsd.Base.{
  ℕ, zero, suc, ◌+◌, ◌≤◌, ◌<◌, ◌≡◌, refl, some, List, [], ◌∷◌, ◌++◌, Bytes, length, get_or, take,
  drop, arith,
}
use simple_dnsd.Name.{DnsName}
use simple_dnsd.Wire.{decode_from, decode_name}

decode_from_bounds :
    (hops fuel : ℕ) (inp : Bytes) (pos : ℕ) (labels : List Bytes) (n : DnsName) (off : ℕ)
    → decode_from hops fuel inp pos labels ≡ some (n, off)
    → (pos < off) × (off ≤ length inp)
unfolding decode_from
decode_from_bounds zero fuel inp pos labels n off h = cc
decode_from_bounds (suc hops) zero inp pos labels n off h = cc
decode_from_bounds (suc hops) (suc fuel) inp pos labels n off h =
    let len = get_or inp pos 0 in
    let label = take len (drop (pos + 1) inp) in
    ground
      (arith, decode_from_bounds (suc hops) fuel inp (pos + 1 + len) (labels ++ label ∷ []) n off)

-- Where a name is read, the offset moves forward, and not past the end of the buffer: whatever the
-- bytes and wherever their pointers lead.
pub decode_name_bounds :
    (inp : Bytes) (pos : ℕ) {n : DnsName} {off : ℕ}
    → decode_name inp pos ≡ some (n, off)
    → (pos < off) × (off ≤ length inp)
unfolding decode_name
decode_name_bounds inp pos {n} {off} h = decode_from_bounds 21 (suc (length inp)) inp pos [] n off h

-- The fuel is enough: once it reaches over the end of the buffer, more of it changes nothing, so the
-- loop of the source ends by its own tests.
pub decode_from_fuel :
    (hops f g : ℕ) (inp : Bytes) (pos : ℕ) (labels : List Bytes)
    → length inp < pos + f
    → length inp < pos + g
    → decode_from hops f inp pos labels ≡ decode_from hops g inp pos labels
unfolding decode_from
decode_from_fuel zero f g inp pos labels p q = refl
decode_from_fuel (suc hops) zero zero inp pos labels p q = refl
decode_from_fuel (suc hops) zero (suc g) inp pos labels p q = ground arith
decode_from_fuel (suc hops) (suc f) zero inp pos labels p q = ground arith
decode_from_fuel (suc hops) (suc f) (suc g) inp pos labels p q =
    let len = get_or inp pos 0 in
    let label = take len (drop (pos + 1) inp) in
    ground (
      arith,
      decode_from_fuel (suc hops) f g inp (pos + 1 + len) (labels ++ label ∷ []) (omega arith)
          (omega arith),
    )
