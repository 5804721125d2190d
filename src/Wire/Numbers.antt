-- ===== src/Wire/Numbers.antt =====
-- Numbers on the wire are read back as they were written.
use mathlib.Core.List.{append_assoc}
use simple_dnsd.Base.{
  ℕ, ◌+◌, ◌*◌, ◌/◌, ◌^◌, ◌<◌, bit_and, bit_or, or-shift, and-ones, ◌≡◌, refl, ◌∙◌, ap, some, ◌∷◌,
  ◌++◌, Bytes, length, length-append, get_or-past, arith,
}
use simple_dnsd.Wire.{to_u8, put16, get16}

pub bytes16-join :
    (v : ℕ) → v < 2 ^ 16 → bit_or (to_u8 (v / 2 ^ 8) * 2 ^ 8) (to_u8 (bit_and v 0xff)) ≡ v
bytes16-join v h =
    omega
      (arith, or-shift 8 (to_u8 (v / 2 ^ 8)) (to_u8 (bit_and v 0xff)) (omega arith), and-ones 8 v)

-- Reading two bytes that stand behind a front part.
pub get16-at :
    (front rest : Bytes) (a b j : ℕ)
    → j ≡ length front
    → get16 (front ++ (a ∷ b ∷ rest)) j ≡ some (bit_or (a * 2 ^ 8) b, j + 2)
unfolding get16
get16-at front rest a b j e = ground (
  arith,
  length-append front (a ∷ b ∷ rest),
  get_or-past front (a ∷ b ∷ rest) j 0 0,
  get_or-past front (a ∷ b ∷ rest) (j + 1) 1 0,
)

-- A 16-bit number written behind any bytes, with any bytes after it, is read back, and the offset
-- moves past its two bytes.
pub get16-put16 :
    (front rest : Bytes) (v : ℕ)
    → v < 2 ^ 16
    → get16 (put16 front v ++ rest) (length front) ≡ some (v, length front + 2)
unfolding put16
get16-put16 front rest v h = rw append_assoc (
    get16-at front rest (to_u8 (v / 2 ^ 8)) (to_u8 (bit_and v 0xff)) (length front) refl
    ∙ ap (λ (t : ℕ). some (t, length front + 2)) (bytes16-join v h))
