-- ===== src/Text/Find.antt =====
-- `std::string::find` and `substr`, which the program reads files and requests with. A position is a
-- number, `std::string::npos` is none.
use simple_dnsd.Base.{
  ℕ, zero, suc, ◌+◌, ◌-◌, ◌≡◌, refl, Bool, true, false, not, ◌&&◌, Option, none, some, List, [],
  ◌∷◌, ◌==◌, if◌then◌else◌, Bytes, take, drop, length, length-drop, ◌≤◌, ◌<◌, all_of, arith,
  Option-cases, Bool-cases, inl, inr,
}

abbrev shift : ℕ → Option ℕ → Option ℕ
shift n none = none
shift n (some i) = some (n + i)

-- The place of the first such byte.
unfoldable pub index_of : ℕ → Bytes → Option ℕ
index_of c [] = none
index_of c (d ∷ s) = let later = shift 1 (index_of c s) in if d == c then some 0 else later

-- `s.find(c, pos)`
abbrev pub find_byte : ℕ → ℕ → Bytes → Option ℕ
find_byte c pos s = shift pos (index_of c (drop pos s))

abbrev pub starts_with : Bytes → Bytes → Bool
starts_with [] s = true
starts_with (c ∷ p) [] = false
starts_with (c ∷ p) (d ∷ s) = c == d && starts_with p s

-- The place of the first occurrence of a text that is not empty.
unfoldable pub place_of : Bytes → Bytes → Option ℕ
place_of p [] = none
place_of p (d ∷ s) =
    let later = shift 1 (place_of p s) in if starts_with p (d ∷ s) then some 0 else later

-- `s.find(p, pos)`
abbrev pub find : Bytes → ℕ → Bytes → Option ℕ
find p pos s = shift pos (place_of p (drop pos s))

-- `s.substr(from, to - from)`
abbrev pub between : ℕ → ℕ → Bytes → Bytes
between from to s = take (to - from) (drop from s)

-- No such byte stands in the text.
abbrev pub lacks : ℕ → Bytes → Bool
lacks c s = all_of (λ d. not (d == c)) s

index_of-cons :
    (c i d : ℕ) (s : Bytes)
    → (d == c) ≡ false
    → index_of c (d ∷ s) ≡ some (suc i)
    → index_of c s ≡ some i
unfolding index_of
index_of-cons c i d s e h = elim (Option-cases (index_of c s)) [
  | inl n ↦ cc
  | inr (j, k) ↦ ground (arith, k)
]

pub index_of-lacks : (c i : ℕ) (s : Bytes) → index_of c s ≡ some i → lacks c (take i s) ≡ true
unfolding index_of
index_of-lacks c i [] h = cc
index_of-lacks c zero (d ∷ s) h = refl
index_of-lacks c (suc i) (d ∷ s) h = elim (Bool-cases (d == c)) [
  | inl e ↦ absurd (ground arith)
  | inr e ↦ ground (arith, index_of-lacks c i s (index_of-cons c i d s e h))
]

pub lacks-index_of : (c : ℕ) (s : Bytes) → lacks c s ≡ true → index_of c s ≡ none
unfolding index_of
lacks-index_of c [] h = refl
lacks-index_of c (d ∷ s) h =
    let e : (d == c) ≡ false = ground arith in
    let tail : lacks c s ≡ true = ground arith in rw (e, lacks-index_of c s tail) refl

pub lacks-drop : (c n : ℕ) (s : Bytes) → lacks c s ≡ true → lacks c (drop n s) ≡ true
lacks-drop c zero s h = h
lacks-drop c (suc n) [] h = refl
lacks-drop c (suc n) (d ∷ s) h = lacks-drop c n s (ground arith)

-- A byte that a text lacks is not found from any place in it.
pub lacks-find_byte : (c pos : ℕ) (s : Bytes) → lacks c s ≡ true → find_byte c pos s ≡ none
lacks-find_byte c pos s h = rw (lacks-index_of c (drop pos s) (lacks-drop c pos s h)) refl

lacks-take : (c n : ℕ) (s : Bytes) → lacks c s ≡ true → lacks c (take n s) ≡ true
lacks-take c zero s h = refl
lacks-take c (suc n) [] h = refl
lacks-take c (suc n) (d ∷ s) h = ground (arith, lacks-take c n s (ground arith))

-- Behind its first byte, what stands before the first occurrence lacks the byte too.
lacks-rest :
    (c i j : ℕ) (s : Bytes)
    → j ≡ i - 1
    → lacks c (take i s) ≡ true
    → lacks c (take j (drop 1 s)) ≡ true
lacks-rest c zero j s e h = rw e refl
lacks-rest c (suc i) j [] e h = lacks-take c j [] refl
lacks-rest c (suc i) j (d ∷ s) e h = let same : j ≡ i = omega arith in rw same (ground arith)

drop-suc : {A : Type 0} (n m : ℕ) (s : List A) → m ≡ n + 1 → drop m s ≡ drop 1 (drop n s)
drop-suc n zero s e = absurd (omega arith)
drop-suc zero (suc m) s e = let same : m ≡ 0 = omega arith in rw same refl
drop-suc (suc n) (suc m) [] e = refl
drop-suc (suc n) (suc m) (x ∷ s) e = drop-suc n m s (omega arith)

-- What stands between a place and the first occurrence of a byte from there on lacks the byte.
pub between-lacks :
    (c from to : ℕ) (s : Bytes)
    → find_byte c from s ≡ some to
    → lacks c (between (from + 1) to s) ≡ true
between-lacks c from to s h = elim (Option-cases (index_of c (drop from s))) [
  | inl n ↦ absurd (ground (arith, n))
  | inr (i, e) ↦
      (let same : to ≡ from + i = ground (arith, e) in
        rw (drop-suc from (from + 1) s refl) (
          lacks-rest c i (to - (from + 1)) (drop from s) (omega arith)
            (index_of-lacks c i (drop from s) e)))
]

index_of_bound : (c i : ℕ) (s : Bytes) → index_of c s ≡ some i → i < length s
unfolding index_of
index_of_bound c i [] h = cc
index_of_bound c zero (d ∷ s) h = omega arith
index_of_bound c (suc i) (d ∷ s) h = elim (Bool-cases (d == c)) [
  | inl e ↦ absurd (ground arith)
  | inr e ↦ omega (arith, index_of_bound c i s (index_of-cons c i d s e h))
]

-- What is found from a place lies at or behind it, and inside the text.
pub find_byte_bounds :
    (c pos r : ℕ) (s : Bytes) → find_byte c pos s ≡ some r → (pos ≤ r) × (r < length s)
find_byte_bounds c pos r s h = elim (Option-cases (index_of c (drop pos s))) [
  | inl n ↦ absurd (ground (arith, n))
  | inr (i, e) ↦
      (let same : r ≡ pos + i = ground (arith, e) in
        let inside = index_of_bound c i (drop pos s) e in
        (omega arith, omega (arith, length-drop pos s, inside)))
]

pub find_from : (p : Bytes) (pos r : ℕ) (s : Bytes) → find p pos s ≡ some r → pos ≤ r
find_from p pos r s h = elim (Option-cases (place_of p (drop pos s))) [
  | inl n ↦ absurd (ground (arith, n))
  | inr (i, e) ↦ (let same : r ≡ pos + i = ground (arith, e) in omega arith)
]
