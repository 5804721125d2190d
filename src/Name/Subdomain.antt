-- ===== src/Name/Subdomain.antt =====
-- `DnsName::isSubdomainOf`: the names below a zone, and names relative to it.
use mathlib.Core.List.{map-append, append_assoc}
use simple_dnsd.Base.{
  ℕ, ◌+◌, ◌-◌, ◌≤◌, ◌≡◌, ◌↔◌, refl, sym, ap, ◌∙◌, true, List, [], ◌∷◌, ◌++◌, map, length, take,
  drop, length-map, length-drop, length-append, map-drop, take-append-drop, drop-length_append,
  Bytes, arith,
}
use simple_dnsd.Text.{to_lower}
use simple_dnsd.Name.{DnsName, is_subdomain_of, equals, make_relative, qualify}
use simple_dnsd.Name.Equality.{key, labels_match-key, key-labels_match, equals_iff}

-- `n` lies below `zone`: its labels end by those of `zone`.
abbrev pub Below : DnsName → DnsName → Type 0
Below n zone = (p : List Bytes) × (key n ≡ p ++ key zone)

Below_length :
    (n zone : DnsName) (p : List Bytes)
    → key n ≡ p ++ key zone
    → length n.labels ≡ length p + length zone.labels
Below_length n zone p e = omega (
  arith,
  length-map to_lower n.labels,
  length-map to_lower zone.labels,
  ap (λ (l : List Bytes). length l) e,
  length-append p (key zone),
)

is_subdomain_of-Below : (n zone : DnsName) → is_subdomain_of n zone ≡ true → Below n zone
unfolding is_subdomain_of
is_subdomain_of-Below n zone h =
    let k = length n.labels - length zone.labels in
    (
      take k (key n),
      sym (take-append-drop k (key n))
          ∙ ap (λ (t : List Bytes). take k (key n) ++ t)
              (sym (map-drop to_lower k n.labels)
                ∙ labels_match-key (drop k n.labels) zone.labels (ground arith)
                    (ground (arith, length-drop k n.labels))),
    )

Below-is_subdomain_of : (n zone : DnsName) → Below n zone → is_subdomain_of n zone ≡ true
unfolding is_subdomain_of
Below-is_subdomain_of n zone (p, e) =
    let k = length n.labels - length zone.labels in
    let l = Below_length n zone p e in
    let same : k ≡ length p = omega (arith, l) in
    ground (
      arith,
      l,
      key-labels_match (drop k n.labels) zone.labels (
          map-drop to_lower k n.labels
          ∙ ap (λ (t : List Bytes). drop k t) e
          ∙ ap (λ (t : ℕ). drop t (p ++ key zone)) same
          ∙ drop-length_append p (key zone)),
    )

-- The test holds exactly where the labels of `n` are some labels followed by those of the zone,
-- up to case.
pub is_subdomain_of_iff : (n zone : DnsName) → (is_subdomain_of n zone ≡ true) ↔ Below n zone
is_subdomain_of_iff n zone = (is_subdomain_of-Below n zone, Below-is_subdomain_of n zone)

pub is_subdomain_of_trans :
    (a b c : DnsName)
    → is_subdomain_of a b ≡ true
    → is_subdomain_of b c ≡ true
    → is_subdomain_of a c ≡ true
is_subdomain_of_trans a b c h k =
    let (p, e) = (is_subdomain_of_iff a b).0 h in
    let (q, f) = (is_subdomain_of_iff b c).0 k in
    (is_subdomain_of_iff a c).1
      (p ++ q, e ∙ ap (λ (t : List Bytes). p ++ t) f ∙ sym (append_assoc p q (key c)))

pub is_subdomain_of-length :
    (a b : DnsName) → is_subdomain_of a b ≡ true → length b.labels ≤ length a.labels
unfolding is_subdomain_of
is_subdomain_of-length a b h = ground arith

pub equals-is_subdomain_of : (a b : DnsName) → equals a b ≡ true → is_subdomain_of a b ≡ true
equals-is_subdomain_of a b h = (is_subdomain_of_iff a b).1 ([], (equals_iff a b).0 h)

-- Below each other, two names are equal.
pub is_subdomain_of_antisymm :
    (a b : DnsName) → is_subdomain_of a b ≡ true → is_subdomain_of b a ≡ true → equals a b ≡ true
is_subdomain_of_antisymm a b h k =
    let (p, e) = (is_subdomain_of_iff a b).0 h in
    (equals_iff a b).1 (go p e (omega (arith, Below_length a b p e, is_subdomain_of-length b a k)))
  where
    go : (p : List Bytes) → key a ≡ p ++ key b → length p ≡ 0 → key a ≡ key b
    go [] e z = e
    go (x ∷ p) e z = absurd (omega arith)

key-qualify :
    (t : List Bytes) (origin : DnsName)
    → key (qualify (record { labels = t }) origin) ≡ map to_lower t ++ key origin
unfolding qualify
key-qualify [] origin = refl
key-qualify (x ∷ t) origin = map-append to_lower (x ∷ t) origin.labels

make_relative_labels :
    (n origin : DnsName)
    → is_subdomain_of n origin ≡ true
    → (make_relative n origin).labels ≡ take (length n.labels - length origin.labels) n.labels
unfolding make_relative
make_relative_labels n origin h = ground (arith, is_subdomain_of-length n origin h)

key_split :
    (n zone : DnsName)
    → is_subdomain_of n zone ≡ true
    → map to_lower (take (length n.labels - length zone.labels) n.labels) ++ key zone ≡ key n
unfolding is_subdomain_of
key_split n zone h =
    let k = length n.labels - length zone.labels in
    ap (λ (t : List Bytes). map to_lower (take k n.labels) ++ t)
      (sym (
        labels_match-key (drop k n.labels) zone.labels (ground arith)
          (ground (arith, length-drop k n.labels))))
    ∙ sym (map-append to_lower (take k n.labels) (drop k n.labels))
    ∙ ap (λ (t : List Bytes). map to_lower t) (take-append-drop k n.labels)

-- A name at or below an origin, made relative to the origin and qualified by it again, is the same
-- name up to case.
pub qualify-make_relative :
    (n origin : DnsName)
    → is_subdomain_of n origin ≡ true
    → equals (qualify (make_relative n origin) origin) n ≡ true
qualify-make_relative n origin h = (equals_iff (qualify (make_relative n origin) origin) n).1 (
    ap (λ (t : List Bytes). key (qualify (record { labels = t }) origin))
      (make_relative_labels n origin h)
    ∙ key-qualify (take (length n.labels - length origin.labels) n.labels) origin
    ∙ key_split n origin h)
