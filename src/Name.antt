-- ===== src/Name.antt =====
-- `DnsName` of src/simple-dnsd/protocol/dns.cpp: a name is its labels, the host's first.
pub mod Equality
pub mod Subdomain
pub mod Presentation
use simple_dnsd.Base.{
  ℕ, ◌-◌, Bool, true, false, ◌&&◌, ◌||◌, not, List, [], ◌∷◌, ◌++◌, ltb, ◌==◌, if◌then◌else◌, Bytes,
  codes, length, take, drop, is_empty, str_eq,
}
use simple_dnsd.Text.{trim, to_lower, emit, join}
use simple_dnsd.StringMap.{str_lt}

pub record DnsName : Type 0 where
  pub labels : List Bytes

abbrev pub root : DnsName
root = record { labels = [] }

abbrev pub dot : Bytes
dot = b'.' ∷ []

-- The loop of `parse` from a place in the text, with the label read so far.
parse_from : Bytes → Bytes → List Bytes
parse_from cur [] = emit cur []
parse_from cur (c ∷ []) = if c == b'.' then emit cur [] else emit (cur ++ c ∷ []) []
parse_from cur (c ∷ d ∷ s) =
    let escaped = parse_from (cur ++ d ∷ []) s in
    let rest = parse_from (if c == b'.' then [] else cur ++ c ∷ []) (d ∷ s) in
    if c == b'\\' then escaped else if c == b'.' then emit cur rest else rest

-- `if (s.back() == '.') s.pop_back()`
drop_back_dot : Bytes → Bytes
drop_back_dot [] = []
drop_back_dot (c ∷ s) = if is_empty s && c == b'.' then [] else c ∷ drop_back_dot s

unfoldable pub parse : Bytes → DnsName
unfolding parse_from drop_back_dot trim
parse presentation =
    let s = trim presentation in
    if is_empty s || str_eq s dot then root else record { labels = parse_from [] (drop_back_dot s) }

unfoldable pub wildcard : DnsName → DnsName
wildcard parent = record { labels = codes "*" ∷ parent.labels }

unfoldable pub to_string : Bool → DnsName → Bytes
unfolding join
to_string trailing_dot n =
    if is_empty n.labels
    then dot
    else (let s = join n.labels dot in if trailing_dot then s ++ dot else s)

unfoldable pub to_lower_string : Bool → DnsName → Bytes
unfolding to_string to_lower
to_lower_string trailing_dot n = to_lower (to_string trailing_dot n)

abbrev pub rest_of {ℓ} : {A : Type ℓ} → List A → List A
rest_of [] = []
rest_of (x ∷ xs) = xs

unfoldable pub parent : DnsName → DnsName
parent n = if ltb 1 (length n.labels) then record { labels = rest_of n.labels } else root

-- The loops of `isSubdomainOf` and `equals`, over the second list.
unfoldable pub labels_match : List Bytes → List Bytes → Bool
labels_match xs [] = true
labels_match [] (y ∷ ys) = false
labels_match (x ∷ xs) (y ∷ ys) = str_eq (to_lower x) (to_lower y) && labels_match xs ys

unfoldable pub is_subdomain_of : DnsName → DnsName → Bool
unfolding labels_match
is_subdomain_of n zone =
    if ltb (length n.labels) (length zone.labels)
    then false
    else labels_match (drop (length n.labels - length zone.labels) n.labels) zone.labels

unfoldable pub equals : DnsName → DnsName → Bool
unfolding labels_match
equals n other =
    if not (length n.labels == length other.labels)
    then false
    else labels_match n.labels other.labels

-- `operator<`
unfoldable pub less_than : DnsName → DnsName → Bool
unfolding to_lower_string str_lt
less_than n other = str_lt (to_lower_string true n) (to_lower_string true other)

unfoldable pub make_relative : DnsName → DnsName → DnsName
unfolding is_subdomain_of
make_relative n origin =
    if not (is_subdomain_of n origin) || ltb (length n.labels) (length origin.labels)
    then n
    else record { labels = take (length n.labels - length origin.labels) n.labels }

unfoldable pub qualify : DnsName → DnsName → DnsName
qualify n origin =
    if is_empty n.labels then origin else record { labels = n.labels ++ origin.labels }

unfoldable pub is_wildcard : DnsName → Bool
is_wildcard n = elim n.labels [ [] ↦ false | l ∷ ls ↦ str_eq l (codes "*") ]
