-- ===== src/Text/Lower.antt =====
-- Lower-casing: it is idempotent, and keeps lengths and classes of bytes.
use simple_dnsd.Base.{ℕ, [], ◌∷◌, ◌≡◌, refl, arith, Bytes, length}
use simple_dnsd.Text.{lower_byte, to_lower}

pub lower_byte_idem : (c : ℕ) → lower_byte (lower_byte c) ≡ lower_byte c
unfolding lower_byte
lower_byte_idem c = ground arith

pub to_lower_idem : (s : Bytes) → to_lower (to_lower s) ≡ to_lower s
unfolding to_lower
to_lower_idem [] = refl
to_lower_idem (c ∷ s) = cc (lower_byte_idem c, to_lower_idem s)

pub length-to_lower : (s : Bytes) → length (to_lower s) ≡ length s
unfolding to_lower
length-to_lower [] = refl
length-to_lower (c ∷ s) = omega (arith, length-to_lower s)
