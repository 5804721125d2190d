-- ===== src/Name/Equality.antt =====
-- `DnsName::equals`: names are compared without regard to case.
use simple_dnsd.Base.{
  ◌≡◌, ◌↔◌, refl, sym, ap, ◌∙◌, true, List, [], ◌∷◌, map, length, length-map, Bytes, str_eq_iff,
  arith,
}
use simple_dnsd.Text.{to_lower}
use simple_dnsd.Name.{DnsName, labels_match, equals}

-- What the comparison of names looks at.
abbrev pub key : DnsName → List Bytes
key n = map to_lower n.labels

pub labels_match-key :
    (xs ys : List Bytes)
    → labels_match xs ys ≡ true
    → length xs ≡ length ys
    → map to_lower xs ≡ map to_lower ys
unfolding labels_match
labels_match-key [] [] h e = refl
labels_match-key [] (y ∷ ys) h e = absurd (omega arith)
labels_match-key (x ∷ xs) [] h e = absurd (omega arith)
labels_match-key (x ∷ xs) (y ∷ ys) h e =
    ground (arith, str_eq_iff (to_lower x) (to_lower y), labels_match-key xs ys)

pub key-labels_match :
    (xs ys : List Bytes) → map to_lower xs ≡ map to_lower ys → labels_match xs ys ≡ true
unfolding labels_match
key-labels_match [] [] e = refl
key-labels_match [] (y ∷ ys) e = cc
key-labels_match (x ∷ xs) [] e = refl
key-labels_match (x ∷ xs) (y ∷ ys) e =
    ground (arith, str_eq_iff (to_lower x) (to_lower y), key-labels_match xs ys)

pub key-length : (a b : DnsName) → key a ≡ key b → length a.labels ≡ length b.labels
key-length a b e =
    sym (length-map to_lower a.labels)
    ∙ ap (λ (l : List Bytes). length l) e
    ∙ length-map to_lower b.labels

-- Two names are equal exactly when their labels agree, one by one, after lower-casing: the test
-- accepts no other pair, and lengths need no separate look.
pub equals_iff : (a b : DnsName) → (equals a b ≡ true) ↔ (key a ≡ key b)
unfolding equals
equals_iff a b = (
  λ h. labels_match-key a.labels b.labels (ground arith) (ground arith),
  λ e. ground (arith, key-labels_match a.labels b.labels e, key-length a b e),
)

pub equals_refl : (a : DnsName) → equals a a ≡ true
equals_refl a = (equals_iff a a).1 refl

pub equals_sym : (a b : DnsName) → equals a b ≡ true → equals b a ≡ true
equals_sym a b h = (equals_iff b a).1 (sym ((equals_iff a b).0 h))

pub equals_trans : (a b c : DnsName) → equals a b ≡ true → equals b c ≡ true → equals a c ≡ true
equals_trans a b c h k = (equals_iff a c).1 ((equals_iff a b).0 h ∙ (equals_iff b c).0 k)
