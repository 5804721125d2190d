-- ===== src/Base/Bits.antt =====
-- `|`, `&` and shifts of unsigned numbers as arithmetic: the operations go digit by digit, so each
-- law is an induction on the place of a digit.
use Prim.Native.Nat.{max, digits, bitwise, bit_and, bit_or, bit_and-bitwise, bit_or-bitwise}
use Prim.Native.Nat.{ℕ, zero, suc, ◌+◌, ◌-◌, ◌*◌, ◌/◌, ◌%◌, ◌^◌, ◌≤◌, ◌<◌, min}
use mathlib.Core.Path.{◌≡◌, refl, ap}
use native.Mathlib.Nat.{pow-suc, one-le-pow}
use native.Mathlib.Omega.{arith}

-- The digit recursion does not depend on its fuel, once that is no less than the first number.
enough_digits :
    (skip : ℕ → ℕ) (op : ℕ → ℕ → ℕ) (f g a b : ℕ)
    → a ≤ f
    → a ≤ g
    → digits skip op f a b ≡ digits skip op g a b
enough_digits skip op zero zero a b p q = refl
enough_digits skip op zero (suc g) zero b p q = refl
enough_digits skip op zero (suc g) (suc a) b p q = absurd (omega arith)
enough_digits skip op (suc f) zero zero b p q = refl
enough_digits skip op (suc f) zero (suc a) b p q = absurd (omega arith)
enough_digits skip op (suc f) (suc g) zero b p q = refl
enough_digits skip op (suc f) (suc g) (suc a) b p q =
    let half = enough_digits skip op f g (suc a / 2) (b / 2) (omega arith) (omega arith) in
    omega (arith, half)

lowest_digit :
    (skip : ℕ → ℕ) (op : ℕ → ℕ → ℕ) (a b : ℕ)
    → bitwise skip op (suc a) b ≡ bitwise skip op (suc a / 2) (b / 2) * 2 + op (suc a % 2) (b % 2)
lowest_digit skip op a b =
    let half =
      enough_digits skip op a (suc a / 2) (suc a / 2) (b / 2) (omega arith) (omega arith) in
    omega (arith, half)

or_lowest : (a b : ℕ) → bit_or a b ≡ bit_or (a / 2) (b / 2) * 2 + max (a % 2) (b % 2)
or_lowest zero b = simp bit_or-bitwise (omega arith)
or_lowest (suc a) b = simp bit_or-bitwise (lowest_digit (λ d. d) max a b)

and_lowest : (a b : ℕ) → bit_and a b ≡ bit_and (a / 2) (b / 2) * 2 + min (a % 2) (b % 2)
and_lowest zero b = simp bit_and-bitwise (omega arith)
and_lowest (suc a) b = simp bit_and-bitwise (lowest_digit (λ d. 0) min a b)

or_zero_below : (n a : ℕ) → a < n → bit_or a 0 ≡ a
or_zero_below zero a h = elim h [ ]
or_zero_below (suc n) zero h = refl
or_zero_below (suc n) (suc a) h =
    omega (arith, or_lowest (suc a) 0, or_zero_below n (suc a / 2) (omega arith))

and_zero_below : (n a : ℕ) → a < n → bit_and a 0 ≡ 0
and_zero_below zero a h = elim h [ ]
and_zero_below (suc n) zero h = refl
and_zero_below (suc n) (suc a) h =
    omega (arith, and_lowest (suc a) 0, and_zero_below n (suc a / 2) (omega arith))

and_zero : (a : ℕ) → bit_and a 0 ≡ 0
and_zero a = and_zero_below (a + 1) a (omega arith)

times_pow-suc : (q k : ℕ) → q * 2 ^ suc k ≡ 2 * (q * 2 ^ k)
times_pow-suc q k = omega (arith, ap (λ (t : ℕ). q * t) (pow-suc 2 k))

-- `(q << k) | r` is a sum where `r` fits the `k` low bits.
pub or-shift : (k q r : ℕ) → r < 2 ^ k → bit_or (q * 2 ^ k) r ≡ q * 2 ^ k + r
or-shift zero q r h = ground (arith, or_zero_below (q + 1) q)
or-shift (suc k) q r h =
    let digit = or_lowest (q * 2 ^ suc k) r in
    ground (arith, digit, times_pow-suc q k, or-shift k q (r / 2) (omega arith))

and-ones_at : (k q r : ℕ) → r < 2 ^ k → bit_and (q * 2 ^ k + r) (2 ^ k - 1) ≡ r
and-ones_at zero q r h = rw and_zero (omega arith)
and-ones_at (suc k) q r h =
    let digit = and_lowest (q * 2 ^ suc k + r) (2 ^ suc k - 1) in
    ground (arith, digit, times_pow-suc q k, pow-suc 2 k, and-ones_at k q (r / 2) (omega arith))

-- A mask of the `k` low bits.
pub and-ones : (k a : ℕ) → bit_and a (2 ^ k - 1) ≡ a % 2 ^ k
and-ones k a = ground (arith, one-le-pow k 2, and-ones_at k (a / 2 ^ k) (a % 2 ^ k))

and_one : (a : ℕ) → bit_and a 1 ≡ a % 2
and_one a = omega (arith, and_lowest a 1, and_zero (a / 2))

and-power_at : (k q r : ℕ) → r < 2 ^ k → bit_and (q * 2 ^ k + r) (2 ^ k) ≡ q % 2 * 2 ^ k
and-power_at zero q r h = ground (arith, and_one q)
and-power_at (suc k) q r h =
    let digit = and_lowest (q * 2 ^ suc k + r) (2 ^ suc k) in
    ground (
      arith,
      digit,
      times_pow-suc q k,
      times_pow-suc (q % 2) k,
      pow-suc 2 k,
      and-power_at k q (r / 2) (omega arith),
    )

-- A mask of one bit.
pub and-power : (k a : ℕ) → bit_and a (2 ^ k) ≡ a / 2 ^ k % 2 * 2 ^ k
and-power k a = ground (arith, one-le-pow k 2, and-power_at k (a / 2 ^ k) (a % 2 ^ k))

-- The two top bits of a byte.
pub and-top_two : (x : ℕ) → x < 256 → bit_and x 0xC0 ≡ x / 64 * 64
and-top_two x h = omega (
  arith,
  and_lowest x 192,
  and_lowest (x / 2) 96,
  and_lowest (x / 2 / 2) 48,
  and_lowest (x / 2 / 2 / 2) 24,
  and_lowest (x / 2 / 2 / 2 / 2) 12,
  and_lowest (x / 2 / 2 / 2 / 2 / 2) 6,
  and-ones 2 (x / 2 / 2 / 2 / 2 / 2 / 2),
)

-- `x | y` where `y` lies below every digit of `x`.
pub or-add : (k q x y : ℕ) → x ≡ q * 2 ^ k → y < 2 ^ k → bit_or x y ≡ x + y
or-add k q x y e h = rw e (or-shift k q y h)
