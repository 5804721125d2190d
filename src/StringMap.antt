-- ===== src/StringMap.antt =====
-- `std::map<std::string, V>`: the entries in ascending order of their keys, which is the order that
-- the program iterates in.
pub mod Laws
use simple_dnsd.Base.{
  ℕ, Bool, true, false, not, ◌&&◌, ◌||◌, Option, none, some, List, [], ◌∷◌, ltb, ◌==◌, ◌≡◌,
  if◌then◌else◌, Bytes, length, str_eq,
}

-- `operator<` of two strings: bytewise, as `char_traits<char>` compares.
unfoldable pub str_lt : Bytes → Bytes → Bool
str_lt [] [] = false
str_lt [] (y ∷ b) = true
str_lt (x ∷ a) [] = false
str_lt (x ∷ a) (y ∷ b) = ltb x y || (x == y && str_lt a b)

abbrev pub StringMap {ℓ} : Type ℓ → Type ℓ
StringMap V = List (Bytes × V)

module _ {ℓ} {V : Type ℓ} where
  abbrev pub empty : StringMap V
  empty = []

  -- `find`
  unfoldable pub lookup : Bytes → StringMap V → Option V
  lookup k [] = none
  lookup k ((j, v) ∷ m) = if str_eq j k then some v else lookup k m

  -- `m[k] = v`
  unfoldable pub insert : Bytes → V → StringMap V → StringMap V
  insert k v [] = (k, v) ∷ []
  insert k v ((j, w) ∷ m) =
      let rest = insert k v m in
      if str_eq j k then (k, v) ∷ m else if str_lt k j then (k, v) ∷ (j, w) ∷ m else (j, w) ∷ rest

  -- `erase(k)`
  unfoldable pub erase : Bytes → StringMap V → StringMap V
  erase k [] = []
  erase k ((j, w) ∷ m) = let rest = erase k m in if str_eq j k then rest else (j, w) ∷ rest

  abbrev pub size : StringMap V → ℕ
  size = length

  -- Every key of the map lies above `k`.
  abbrev pub Above : Bytes → StringMap V → Type 0
  Above k [] = Unit
  Above k ((j, w) ∷ m) = (str_lt k j ≡ true) × Above k m

  -- The keys ascend, so no key stands twice.
  abbrev pub IsSorted : StringMap V → Type 0
  IsSorted [] = Unit
  IsSorted ((k, v) ∷ m) = Above k m × IsSorted m
