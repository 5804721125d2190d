-- ===== src/Zone/NamedConf/Fuel.antt =====
-- The loop of `parseNamedConf` ends before its fuel does.
use simple_dnsd.Base.{
  ℕ, zero, suc, ◌+◌, ◌≤◌, ◌<◌, ◌≡◌, refl, ap, some, none, List, ◌∷◌, Bytes, codes, length, arith,
  Option-cases, inl, inr,
}
use simple_dnsd.Chain.{>>=-eq-some}
use simple_dnsd.Text.{to_lower}
use simple_dnsd.Text.Find.{find_byte, find, find_byte_bounds, find_from}
use simple_dnsd.Zone.Lexer.{quote}
use simple_dnsd.Zone.NamedConf.{NamedZone, or_else, next_zone, named_from}

or_else_from : (q : ℕ) (text : Bytes) → q ≤ or_else q (find_byte b'{' q text)
or_else_from q text = elim (Option-cases (find_byte b'{' q text)) [
  | inl n ↦ rw n (omega arith)
  | inr (b, e) ↦ rw e (find_byte_bounds b'{' q b text e).0
]

-- A round goes on behind the place it began at, and inside the text or at its end.
next_zone_bounds :
    (text : Bytes) (pos next : ℕ) (nz : NamedZone)
    → next_zone text pos ≡ some (nz, next)
    → (pos < next) × (next ≤ length text)
unfolding next_zone
next_zone_bounds text pos next nz h =
    let (z, hz, k1) = >>=-eq-some (find (codes "zone") pos (to_lower text)) _ h in
    let (q1, h1, k2) = >>=-eq-some (find_byte quote z text) _ k1 in
    let (q2, h2, k3) = >>=-eq-some (find_byte quote (q1 + 1) text) _ k2 in
    let (e, he, k4) =
      >>=-eq-some (find_byte b'}' (or_else q2 (find_byte b'{' q2 text)) text) _ k3 in
    let same : next ≡ e + 1 = ground arith in
    let first = find_from (codes "zone") pos z (to_lower text) hz in
    let second = find_byte_bounds quote z q1 text h1 in
    let third = find_byte_bounds quote (q1 + 1) q2 text h2 in
    let last = find_byte_bounds b'}' (or_else q2 (find_byte b'{' q2 text)) e text he in
    (omega (arith, or_else_from q2 text, first, second.0, third.0, last.0), omega (arith, last.1))

-- Nothing is found behind the text.
next_zone-past : (text : Bytes) (pos : ℕ) → length text < pos → next_zone text pos ≡ none
next_zone-past text pos p = elim (Option-cases (next_zone text pos)) [
  | inl n ↦ n
  | inr ((nz, next), e) ↦
      absurd (let b = next_zone_bounds text pos next nz e in omega (arith, b.0, b.1))
]

-- More fuel than the text has bytes left changes nothing: `parse_named_conf` gives as much.
pub named_from_fuel :
    (f g : ℕ) (text : Bytes) (pos : ℕ)
    → length text < f + pos
    → length text < g + pos
    → named_from f text pos ≡ named_from g text pos
unfolding named_from
named_from_fuel zero zero text pos p q = refl
named_from_fuel zero (suc g) text pos p q =
    rw (named_from, next_zone-past text pos (omega arith)) refl
named_from_fuel (suc f) zero text pos p q =
    rw (named_from, next_zone-past text pos (omega arith)) refl
named_from_fuel (suc f) (suc g) text pos p q = elim (Option-cases (next_zone text pos)) [
  | inl n ↦ rw (named_from, n) refl
  | inr ((nz, next), e) ↦
      (let b = next_zone_bounds text pos next nz e in
        rw (named_from, e)
          (ap (λ (t : List NamedZone). nz ∷ t)
            (named_from_fuel f g text next (omega (arith, b.0)) (omega (arith, b.0)))))
]
