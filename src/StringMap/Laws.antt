-- ===== src/StringMap/Laws.antt =====
-- The laws of the map: what a lookup sees after a write, and that the order of keys is kept.
use simple_dnsd.Base.{
  ◌+◌, ◌≤◌, ◌≡◌, refl, true, false, none, some, [], ◌∷◌, inl, inr, if◌then◌else◌, Bytes, str_eq,
  str_eq_iff, str_eq_refl, arith, Bool-cases,
}
use simple_dnsd.StringMap.{StringMap, str_lt, lookup, insert, erase, size, Above, IsSorted}

pub str_lt_trans : (a b c : Bytes) → str_lt a b ≡ true → str_lt b c ≡ true → str_lt a c ≡ true
unfolding str_lt
str_lt_trans [] [] c p q = cc
str_lt_trans [] (y ∷ b) [] p q = cc
str_lt_trans [] (y ∷ b) (z ∷ c) p q = refl
str_lt_trans (x ∷ a) [] c p q = cc
str_lt_trans (x ∷ a) (y ∷ b) [] p q = cc
str_lt_trans (x ∷ a) (y ∷ b) (z ∷ c) p q = ground (arith, str_lt_trans a b c)

str_lt_irrefl : (a : Bytes) → str_lt a a ≡ false
unfolding str_lt
str_lt_irrefl [] = refl
str_lt_irrefl (x ∷ a) = ground (arith, str_lt_irrefl a)

str_lt_total : (a b : Bytes) → str_eq a b ≡ false → str_lt a b ≡ false → str_lt b a ≡ true
unfolding str_lt
str_lt_total [] [] p q = cc
str_lt_total [] (y ∷ b) p q = cc
str_lt_total (x ∷ a) [] p q = refl
str_lt_total (x ∷ a) (y ∷ b) p q = ground (arith, str_lt_total a b)

module _ {ℓ} {V : Type ℓ} where
  pub lookup-insert :
      (j k : Bytes) (v : V) (m : StringMap V)
      → lookup j (insert k v m) ≡ (if str_eq k j then some v else lookup j m)
  unfolding lookup insert
  lookup-insert j k v [] = refl
  lookup-insert j k v ((i, w) ∷ m) =
      ground (arith, lookup-insert j k v m, str_eq_iff i k, str_eq_iff i j, str_eq_iff k j)

  pub lookup-erase :
      (j k : Bytes) (m : StringMap V)
      → lookup j (erase k m) ≡ (if str_eq k j then none else lookup j m)
  unfolding lookup erase
  lookup-erase j k [] = ground arith
  lookup-erase j k ((i, w) ∷ m) =
      ground (arith, lookup-erase j k m, str_eq_iff i k, str_eq_iff i j, str_eq_iff k j)

  pub lookup-insert_self : (k : Bytes) (v : V) (m : StringMap V) → lookup k (insert k v m) ≡ some v
  lookup-insert_self k v m = ground (arith, lookup-insert k k v m, str_eq_refl k)

  pub size-insert : (k : Bytes) (v : V) (m : StringMap V) → size (insert k v m) ≤ size m + 1
  unfolding insert
  size-insert k v [] = omega arith
  size-insert k v ((j, w) ∷ m) = ground (arith, size-insert k v m)

  Above-trans : (j k : Bytes) (m : StringMap V) → str_lt j k ≡ true → Above k m → Above j m
  Above-trans j k [] p h = tt
  Above-trans j k ((i, w) ∷ m) p h = (str_lt_trans j k i p h.0, Above-trans j k m p h.1)

  Above-insert :
      (j k : Bytes) (v : V) (m : StringMap V)
      → str_lt j k ≡ true
      → Above j m
      → Above j (insert k v m)
  unfolding insert
  Above-insert j k v [] p h = (p, tt)
  Above-insert j k v ((i, w) ∷ m) p h = ground (arith, Above-insert j k v m p h.1)

  Above-erase : (j k : Bytes) (m : StringMap V) → Above j m → Above j (erase k m)
  unfolding erase
  Above-erase j k [] h = tt
  Above-erase j k ((i, w) ∷ m) h = ground (arith, Above-erase j k m h.1)

  pub insert-IsSorted : (k : Bytes) (v : V) (m : StringMap V) → IsSorted m → IsSorted (insert k v m)
  unfolding insert
  insert-IsSorted k v [] h = (tt, tt)
  insert-IsSorted k v ((j, w) ∷ m) h = elim (Bool-cases (str_eq j k)) [
    | inl e ↦ rw e (let p : j ≡ k = (str_eq_iff j k).0 e in rw p at h)
    | inr e ↦ elim (Bool-cases (str_lt k j)) [
      | inl l ↦ rw (e, l) ((l, Above-trans k j m l h.0), (h.0, h.1))
      | inr g ↦
          rw (e, g)
            (
              Above-insert j k v m
                  (str_lt_total k j (ground (arith, str_eq_iff j k, str_eq_iff k j)) g) h.0,
              insert-IsSorted k v m h.1,
            )
    ]
  ]

  pub erase-IsSorted : (k : Bytes) (m : StringMap V) → IsSorted m → IsSorted (erase k m)
  unfolding erase
  erase-IsSorted k [] h = tt
  erase-IsSorted k ((j, w) ∷ m) h = ground (arith, Above-erase j k m h.0, erase-IsSorted k m h.1)
