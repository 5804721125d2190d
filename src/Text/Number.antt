-- ===== src/Text/Number.antt =====
-- The numeric conversions of <string> that the program calls: `std::stoi`, `std::stoul` and
-- `std::to_string`, with `int` of 32 bits and `unsigned long` of 64.
use simple_dnsd.Base.{
  ℕ, zero, suc, ◌+◌, ◌-◌, ◌*◌, ◌/◌, ◌%◌, ◌^◌, Bool, true, false, ◌&&◌, ◌||◌, Option, none, some, [],
  ◌∷◌, ltb, leb, ◌==◌, if◌then◌else◌, Bytes, refl, ◌≡◌, codes,
}
use simple_dnsd.Text.{trim_front, is_space}
use simple_dnsd.Outcome.{Outcome, ok, thrown}

-- The value of a digit, or 36 and more where the byte is none.
abbrev digit_value : ℕ → ℕ
digit_value c =
    if leb b'0' c && leb c b'9'
    then c - b'0'
    else if leb b'a' c && leb c b'z'
    then c - b'a' + 10
    else if leb b'A' c && leb c b'Z'
    then c - b'A' + 10
    else 36

-- The number that the digits in front spell; `none` where there is no digit.
read_digits : ℕ → Option ℕ → Bytes → Option ℕ
read_digits base acc [] = acc
read_digits base acc (c ∷ s) =
    let v = digit_value c in
    let rest = read_digits base (some (elim acc [ none ↦ v | some n ↦ n * base + v ])) s in
    if ltb v base then rest else acc

-- A "0x" in front of a hexadecimal digit is skipped when the base is 16.
skip_prefix : ℕ → Bytes → Bytes
skip_prefix base (z ∷ x ∷ d ∷ s) =
    if base == 16 && z == b'0' && (x == b'x' || x == b'X') && ltb (digit_value d) 16
    then d ∷ s
    else z ∷ x ∷ d ∷ s
skip_prefix base s = s

-- The sign, `true` for a minus, and the bytes behind it.
sign : Bytes → Bool × Bytes
sign [] = (false, [])
sign (c ∷ s) = if c == b'-' then (true, s) else if c == b'+' then (false, s) else (false, c ∷ s)

-- `strtol`: the sign and the magnitude of the number in front of the text.
unfoldable pub strtol : ℕ → Bytes → Option (Bool × ℕ)
unfolding read_digits skip_prefix sign trim_front is_space
strtol base s =
    let (neg, body) = sign (trim_front s) in
    elim (read_digits base none (skip_prefix base body)) [ none ↦ none | some m ↦ some (neg, m) ]

-- `std::stoi`: throws where there is no number or where it does not fit an `int`.
unfoldable pub stoi : ℕ → Bytes → Outcome (Bool × ℕ)
unfolding strtol
stoi base s = elim (strtol base s) [
  | none ↦ thrown
  | some (neg, m) ↦ if leb m (if neg then 2 ^ 31 else 2 ^ 31 - 1) then ok (neg, m) else thrown
]

-- The conversion of an `int` to an unsigned type of `w` bits.
abbrev pub wrap_int : ℕ → Bool × ℕ → ℕ
wrap_int w (neg, m) = if neg then (2 ^ w - m % 2 ^ w) % 2 ^ w else m % 2 ^ w

-- `std::stoul`: a minus sign negates modulo 2 ^ 64.
unfoldable pub stoul : Bytes → Outcome ℕ
unfolding strtol
stoul s = elim (strtol 10 s) [
  | none ↦ thrown
  | some (neg, m) ↦ if ltb m (2 ^ 64) then ok (wrap_int 64 (neg, m)) else thrown
]

-- The decimal digits of `n`, in front of `acc`. The fuel is one more than `n`, and the number
-- falls in each round.
decimal_onto : ℕ → ℕ → Bytes → Bytes
decimal_onto zero n acc = acc
decimal_onto (suc fuel) n acc =
    let rest = decimal_onto fuel (n / 10) ((b'0' + n % 10) ∷ acc) in
    if ltb n 10 then (b'0' + n) ∷ acc else rest

-- `std::to_string` of an unsigned number.
unfoldable pub decimal : ℕ → Bytes
unfolding decimal_onto
decimal n = decimal_onto (suc n) n []

decimal_sample : decimal 3600 ≡ codes "3600"
unfolding decimal
decimal_sample = refl

stoi_sample : stoi 16 (codes "0x1g") ≡ ok (false, 1)
unfolding stoi
stoi_sample = refl
