-- ===== src/BindFile/Agreement.antt =====
-- The BIND backend reads as the memory backend does.
use simple_dnsd.Base.{
  ℕ, ◌≡◌, refl, ap, sym, ◌∙◌, true, not, ◌&&◌, ◌||◌, Option, none, some, List, [], ◌∷◌, keep_if,
  all_of, any_of, Bytes, arith, length, leb, if◌then◌else◌, Option-cases, inl, inr, str_eq,
  Bool-cases,
}
use simple_dnsd.Name.{DnsName, equals, is_subdomain_of, to_lower_string}
use simple_dnsd.StringMap
use simple_dnsd.Record.{ResourceRecord}
use simple_dnsd.Backend.{ZoneInfo}
use simple_dnsd.Memory
use simple_dnsd.Memory.Transaction.{MemZone}
use simple_dnsd.BindFile.{
  BindZone, BindZones, get, records_of, best_zone, find_zone, list_zones, lookup, list_zone,
  name_exists, find_delegation, cut_from, answers_to,
}

-- A zone of the backend as the memory backend would keep it: the file is forgotten.
abbrev pub mem_of : BindZone → MemZone
mem_of z = record { info = z.info; records = z.records }

abbrev pub view : BindZones → Memory.MemoryBackend
view [] = []
view ((k, z) ∷ zones) = (k, mem_of z) ∷ view zones

abbrev mem_of_option : Option BindZone → Option MemZone
mem_of_option none = none
mem_of_option (some z) = some (mem_of z)

best_zone-view :
    (qname : DnsName) (best : Option ZoneInfo) (n : ℕ) (zones : BindZones)
    → best_zone qname best n zones ≡ Memory.best_zone qname best n (view zones)
unfolding best_zone Memory.best_zone
best_zone-view qname best n [] = refl
best_zone-view qname best n ((k, z) ∷ zones) =
    let m = z.info.name in
    let better = (is_subdomain_of qname m || equals qname m) && leb n (length m.labels) in
    best_zone-view qname (if better then some z.info else best)
      (if better then length m.labels else n) zones

list_zones-view : (zones : BindZones) → list_zones zones ≡ Memory.list_zones (view zones)
unfolding list_zones Memory.list_zones
list_zones-view [] = refl
list_zones-view ((k, z) ∷ zones) = ap (λ (l : List ZoneInfo). z.info ∷ l) (list_zones-view zones)

lookup-view :
    (k : Bytes) (zones : BindZones)
    → StringMap.lookup k (view zones) ≡ mem_of_option (StringMap.lookup k zones)
unfolding StringMap.lookup
lookup-view k [] = refl
lookup-view k ((j, z) ∷ zones) = elim (Bool-cases (str_eq j k)) [
  | inl e ↦ rw e refl
  | inr e ↦ rw e (lookup-view k zones)
]

get-view :
    (zones : BindZones) (zone : ZoneInfo)
    → Memory.get (view zones) zone ≡ mem_of_option (get zones zone)
unfolding get Memory.get
get-view zones zone = lookup-view (to_lower_string true zone.name) zones

records-view :
    (zones : BindZones) (zone : ZoneInfo)
    → Memory.records_of (Memory.get (view zones) zone) ≡ records_of (get zones zone)
records-view zones zone = elim (Option-cases (get zones zone)) [
  | inl n ↦ ground (arith, get-view zones zone)
  | inr (z, e) ↦ ground (arith, get-view zones zone)
]

keep_if-enabled :
    (qname : DnsName) (qtype : ℕ) (rrs : List ResourceRecord)
    → all_of (λ rr. not rr.disabled) rrs ≡ true
    → keep_if (answers_to qname qtype) rrs ≡ keep_if (Memory.answers_to qname qtype) rrs
keep_if-enabled qname qtype [] h = refl
keep_if-enabled qname qtype (rr ∷ rrs) h = ground (arith, keep_if-enabled qname qtype rrs)

cut_from-same :
    (rrs : List ResourceRecord) (zone : ZoneInfo) (labels : List Bytes)
    → cut_from rrs zone labels ≡ Memory.cut_from rrs zone labels
unfolding cut_from Memory.cut_from
cut_from-same rrs zone [] = refl
cut_from-same rrs zone (l ∷ labels) = ground (arith, cut_from-same rrs zone labels)

find_delegation-view :
    (zones : BindZones) (zone : ZoneInfo) (qname : DnsName)
    → find_delegation zones zone qname ≡ Memory.find_delegation (view zones) zone qname
unfolding find_delegation Memory.find_delegation
find_delegation-view zones zone qname = elim (Option-cases (get zones zone)) [
  | inl n ↦ ground (arith, get-view zones zone)
  | inr (z, e) ↦ ground (arith, get-view zones zone, cut_from-same z.records zone qname.labels)
]

-- A backend that reads zone files answers every question about its zones as a memory backend with
-- the same zones does: which zone a name is in, which zones there are, what a zone holds, which
-- names exist and where it delegates. The records of a name are the same where no record of the
-- zone is disabled.
pub reads-view :
    (zones : BindZones) (zone : ZoneInfo) (qname : DnsName) (qtype : ℕ)
    → all_of (λ rr. not rr.disabled) (records_of (get zones zone)) ≡ true
    → (find_zone zones qname ≡ Memory.find_zone (view zones) qname)
      × (list_zones zones ≡ Memory.list_zones (view zones))
      × (list_zone zones zone ≡ Memory.list_zone (view zones) zone)
      × (name_exists zones zone qname ≡ Memory.name_exists (view zones) zone qname)
      × (find_delegation zones zone qname ≡ Memory.find_delegation (view zones) zone qname)
      × (lookup zones zone qname qtype ≡ Memory.lookup (view zones) zone qname qtype)
unfolding find_zone Memory.find_zone list_zone Memory.list_zone name_exists Memory.name_exists
    lookup Memory.lookup
reads-view zones zone qname qtype h = (
  best_zone-view qname none 0 zones,
  list_zones-view zones,
  sym (records-view zones zone),
  ap
      (λ (l : List ResourceRecord).
        any_of (λ rr. equals rr.name qname || is_subdomain_of rr.name qname) l)
      (sym (records-view zones zone)),
  find_delegation-view zones zone qname,
  keep_if-enabled qname qtype (records_of (get zones zone)) h
      ∙ ap (λ (l : List ResourceRecord). keep_if (Memory.answers_to qname qtype) l)
          (sym (records-view zones zone)),
)
