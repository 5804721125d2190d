-- ===== src/Memory/Lookup.antt =====
-- What the memory backend finds: the zone of a name and the delegation on the way to it.
use simple_dnsd.Base.{
  ℕ, zero, suc, ◌≤◌, ◌≡◌, refl, sym, ap, Bool, true, false, ◌&&◌, ◌||◌, Option, some, none, List,
  [], ◌∷◌, ◌++◌, leb, le→leb, Bytes, length, any_of, arith, ◌⊎◌, inl, inr, Bool-cases,
}
use simple_dnsd.Name.{DnsName, equals, is_subdomain_of}
use simple_dnsd.Record.{ResourceRecord}
use simple_dnsd.Backend.{ZoneInfo}
use simple_dnsd.Memory.Transaction.{MemZone}
use simple_dnsd.Memory.{
  MemoryBackend, best_zone, find_zone, delegates, cut_from, find_delegation, get,
}

-- The zone encloses the name.
abbrev pub encloses : DnsName → ZoneInfo → Bool
encloses qname z = is_subdomain_of qname z.name || equals qname z.name

-- Every zone of the backend that encloses the name has at most `bound` labels.
abbrev pub NoLonger : DnsName → ℕ → MemoryBackend → Type 0
NoLonger qname bound [] = Unit
NoLonger qname bound ((k, z) ∷ zones) =
    (encloses qname z.info ≡ true → length z.info.name.labels ≤ bound) × NoLonger qname bound zones

-- No zone of the backend encloses the name.
abbrev pub NoneEncloses : DnsName → MemoryBackend → Type 0
NoneEncloses qname [] = Unit
NoneEncloses qname ((k, z) ∷ zones) = (encloses qname z.info ≡ false) × NoneEncloses qname zones

-- The information of one of the backend's zones.
abbrev pub IsListed : ZoneInfo → MemoryBackend → Type 0
IsListed info [] = ⊥
IsListed info ((k, z) ∷ zones) = (z.info ≡ info) ⊎ IsListed info zones

-- What `findZone` promises of its result.
abbrev pub Longest : DnsName → MemoryBackend → Option ZoneInfo → Type 0
Longest qname zones none = NoneEncloses qname zones
Longest qname zones (some z) =
    IsListed z zones × (encloses qname z ≡ true) × NoLonger qname (length z.name.labels) zones

-- What the loop ends with, where it holds the zone `b` already.
record Grown (qname : DnsName) (b : ZoneInfo) (zones : MemoryBackend) : Type 0 where
  result : ZoneInfo
  is_result : best_zone qname (some b) (length b.name.labels) zones ≡ some result
  grows : length b.name.labels ≤ length result.name.labels
  source : (result ≡ b) ⊎ (IsListed result zones × (encloses qname result ≡ true))
  longest : NoLonger qname (length result.name.labels) zones

replaced :
    {r b : ZoneInfo} (qname : DnsName) (k : Bytes) (z : MemZone) (zones : MemoryBackend)
    → encloses qname z.info ≡ true
    → (r ≡ z.info) ⊎ (IsListed r zones × (encloses qname r ≡ true))
    → (r ≡ b) ⊎ (IsListed r ((k, z) ∷ zones) × (encloses qname r ≡ true))
replaced qname k z zones h (inl same) = inr (inl (sym same), rw same h)
replaced qname k z zones h (inr (l, e)) = inr (inr l, e)

kept :
    {r b : ZoneInfo} (qname : DnsName) (k : Bytes) (z : MemZone) (zones : MemoryBackend)
    → (r ≡ b) ⊎ (IsListed r zones × (encloses qname r ≡ true))
    → (r ≡ b) ⊎ (IsListed r ((k, z) ∷ zones) × (encloses qname r ≡ true))
kept qname k z zones (inl same) = inl same
kept qname k z zones (inr (l, e)) = inr (inr l, e)

best_zone-Grown : (qname : DnsName) (b : ZoneInfo) (zones : MemoryBackend) → Grown qname b zones
unfolding best_zone
best_zone-Grown qname b [] = record {
  result = b;
  is_result = refl;
  grows = omega arith;
  source = inl refl;
  longest = tt;
}
best_zone-Grown qname b ((k, z) ∷ zones) =
    elim (Bool-cases
      (encloses qname z.info && leb (length b.name.labels) (length z.info.name.labels))) [
        | inl better ↦
            (let g = best_zone-Grown qname z.info zones in
              record {
                result = g.result;
                is_result = rw better g.is_result;
                grows = ground (arith, g.grows);
                source = replaced qname k z zones (ground arith) g.source;
                longest = (λ e. g.grows, g.longest);
              })
        | inr worse ↦
            (let g = best_zone-Grown qname b zones in
              record {
                result = g.result;
                is_result = rw worse g.is_result;
                grows = g.grows;
                source = kept qname k z zones g.source;
                longest = (λ e. ground (arith, g.grows), g.longest);
              })
      ]

listed :
    {r : ZoneInfo} (qname : DnsName) (k : Bytes) (z : MemZone) (zones : MemoryBackend)
    → encloses qname z.info ≡ true
    → (r ≡ z.info) ⊎ (IsListed r zones × (encloses qname r ≡ true))
    → IsListed r ((k, z) ∷ zones) × (encloses qname r ≡ true)
listed qname k z zones h (inl same) = (inl (sym same), rw same h)
listed qname k z zones h (inr (l, e)) = (inr l, e)

-- A zone in front that does not enclose the name changes nothing.
skipped :
    (qname : DnsName) (k : Bytes) (z : MemZone) (zones : MemoryBackend) (o : Option ZoneInfo)
    → encloses qname z.info ≡ false
    → Longest qname zones o
    → Longest qname ((k, z) ∷ zones) o
skipped qname k z zones none e h = (e, h)
skipped qname k z zones (some r) e (l, f, n) = (inr l, f, ((λ t. ground arith), n))

-- What the loop ends with, where it holds no zone yet.
best_zone-Longest :
    (qname : DnsName) (zones : MemoryBackend) → Longest qname zones (best_zone qname none 0 zones)
unfolding best_zone
best_zone-Longest qname [] = tt
best_zone-Longest qname ((k, z) ∷ zones) = elim (Bool-cases (encloses qname z.info)) [
  | inl e ↦
      (let g = best_zone-Grown qname z.info zones in
        let (l, f) = listed qname k z zones e g.source in
        rw (e, le→leb 0 (length z.info.name.labels) (omega arith), g.is_result)
          (l, f, ((λ h. g.grows), g.longest)))
  | inr e ↦
      rw e
        (skipped qname k z zones (best_zone qname none 0 zones) e (best_zone-Longest qname zones))
]

-- `findZone` returns one of the backend's zones that encloses the name, and no zone that encloses it
-- has more labels; it returns none exactly where no zone encloses the name.
pub find_zone-Longest :
    (zones : MemoryBackend) (qname : DnsName) → Longest qname zones (find_zone zones qname)
unfolding find_zone
find_zone-Longest zones qname = best_zone-Longest qname zones

-- An NS record of the zone stands at the name, which is not the zone's own.
abbrev pub IsCut : List ResourceRecord → ZoneInfo → DnsName → Type 0
IsCut records zone cur = any_of (delegates zone cur) records ≡ true

-- The walk from the name with these labels up `n` labels does not pass the zone's own name.
abbrev pub StaysBelow : ZoneInfo → ℕ → List Bytes → Type 0
StaysBelow zone zero labels = equals (record { labels = labels }) zone.name ≡ false
StaysBelow zone (suc n) [] = Unit
StaysBelow zone (suc n) (l ∷ labels) =
    (equals (record { labels = l ∷ labels }) zone.name ≡ false) × StaysBelow zone n labels

cut_from_sound :
    (records : List ResourceRecord) (zone : ZoneInfo) (labels : List Bytes) (cut : DnsName)
    → cut_from records zone labels ≡ some cut
    → (p : List Bytes) × (labels ≡ p ++ cut.labels) × IsCut records zone cut
unfolding cut_from
cut_from_sound records zone [] cut h = cc
cut_from_sound records zone (l ∷ labels) cut h =
    let cur : DnsName = record { labels = l ∷ labels } in
    elim (Bool-cases (equals cur zone.name)) [
      | inl apex ↦ absurd (ground arith)
      | inr below ↦ elim (Bool-cases (any_of (delegates zone cur) records)) [
        | inl here ↦ ([], ground arith, ground arith)
        | inr past ↦
            (let (p, e, c) = cut_from_sound records zone labels cut (ground arith) in
              (l ∷ p, ap (λ (t : List Bytes). l ∷ t) e, c))
      ]
    ]

-- The delegation that is found lies at or above the name that is asked for, an NS record of the zone
-- stands at it, and it is not the zone's own name.
pub find_delegation_sound :
    (zones : MemoryBackend) (zone : ZoneInfo) (qname : DnsName) {z : MemZone} {cut : DnsName}
    → get zones zone ≡ some z
    → find_delegation zones zone qname ≡ some cut
    → (p : List Bytes) × (qname.labels ≡ p ++ cut.labels) × IsCut z.records zone cut
unfolding find_delegation
find_delegation_sound zones zone qname {z} {cut} g h =
    cut_from_sound z.records zone qname.labels cut (ground arith)
