-- ===== src/Gsql/Quote.antt =====
-- A literal that `q` writes is read back by SQL as the text it was made of.
use simple_dnsd.Base.{
  ℕ, ◌≡◌, refl, ap, ◌∙◌, Bool, true, false, not, Option, none, some, [], ◌∷◌, ◌++◌, ◌==◌,
  if◌then◌else◌, Bytes, arith, Bool-cases, ==_iff, inl, inr,
}
use mathlib.Core.List.{append_assoc}
use simple_dnsd.Gsql.Statement.{apostrophe, doubled, q}

abbrev in_front : ℕ → Option (Bytes × Bytes) → Option (Bytes × Bytes)
in_front c none = none
in_front c (some (s, rest)) = some (c ∷ s, rest)

-- The rest of a literal of standard SQL and what stands behind it: two apostrophes stand for one, and
-- one ends the literal.
unfoldable pub read_rest : Bytes → Option (Bytes × Bytes)
read_rest [] = none
read_rest (c ∷ []) = if c == apostrophe then some ([], []) else none
read_rest (c ∷ d ∷ s) =
    let past = in_front apostrophe (read_rest s) in
    let plain = in_front c (read_rest (d ∷ s)) in
    if c == apostrophe then if d == apostrophe then past else some ([], d ∷ s) else plain

unfoldable pub read_literal : Bytes → Option (Bytes × Bytes)
unfolding read_rest
read_literal [] = none
read_literal (c ∷ s) = let rest = read_rest s in if c == apostrophe then rest else none

-- The text does not go on with an apostrophe.
abbrev pub ends_literal : Bytes → Bool
ends_literal [] = true
ends_literal (c ∷ s) = not (c == apostrophe)

read_rest-plain :
    (c : ℕ) (s : Bytes) → (c == apostrophe) ≡ false → read_rest (c ∷ s) ≡ in_front c (read_rest s)
unfolding read_rest
read_rest-plain c [] e = rw e refl
read_rest-plain c (d ∷ s) e = rw e refl

read_rest-doubled :
    (s rest : Bytes)
    → ends_literal rest ≡ true
    → read_rest (doubled s ++ apostrophe ∷ rest) ≡ some (s, rest)
unfolding read_rest doubled
read_rest-doubled [] [] h = refl
read_rest-doubled [] (c ∷ rest) h = ground arith
read_rest-doubled (c ∷ s) rest h = elim (Bool-cases (c == apostrophe)) [
  | inl e ↦
      (let p : c ≡ apostrophe = (==_iff c apostrophe).0 e in
        rw p
          (ap (λ (o : Option (Bytes × Bytes)). in_front apostrophe o) (read_rest-doubled s rest h)))
  | inr e ↦ rw e (
      read_rest-plain c (doubled s ++ apostrophe ∷ rest) e
      ∙ ap (λ (o : Option (Bytes × Bytes)). in_front c o) (read_rest-doubled s rest h))
]

-- What `q` writes is one literal of standard SQL, whatever the text is, and stands for that text: it
-- ends where `q` ended it, so nothing of the text is read as a part of the statement. What follows
-- does not begin with an apostrophe.
pub read_literal-q :
    (s rest : Bytes) → ends_literal rest ≡ true → read_literal (q s ++ rest) ≡ some (s, rest)
unfolding read_literal q
read_literal-q s rest h =
    ap (λ (t : Bytes). read_rest t) (append_assoc (doubled s) (apostrophe ∷ []) rest)
    ∙ read_rest-doubled s rest h
