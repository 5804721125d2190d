-- ===== src/Memory.antt =====
-- The in-memory backend, src/simple-dnsd/backend/memory.cpp. Each call of the source holds the
-- backend's mutex from its first access to its last, so calls are steps on one state.
pub mod Transaction
pub mod Lookup
pub mod Commit
use simple_dnsd.Base.{
  ℕ, ◌+◌, Bool, true, false, not, ◌&&◌, ◌||◌, Option, none, some, List, [], ◌∷◌, ◌++◌, leb, ◌==◌,
  if◌then◌else◌, Bytes, length, keep_if, any_of, is_empty,
}
use simple_dnsd.Outcome.{Outcome, ok, thrown}
use simple_dnsd.Name.{DnsName, equals, is_subdomain_of, to_lower_string, parent, rest_of}
use simple_dnsd.StringMap
use simple_dnsd.StringMap.{StringMap}
use simple_dnsd.Record.{ResourceRecord}
use simple_dnsd.Record.RrType
use simple_dnsd.Inet.{Inet}
use simple_dnsd.Rdata.{content_to_rdata}
use simple_dnsd.Backend.{ZoneInfo, pos, Backend}
use simple_dnsd.Memory.Transaction.{MemZone, Zones, MemoryTransaction, new_transaction, operations}

abbrev pub MemoryBackend : Type 0
MemoryBackend = Zones

-- `get`
unfoldable pub get : MemoryBackend → ZoneInfo → Option MemZone
unfolding StringMap.lookup to_lower_string
get zones zone = StringMap.lookup (to_lower_string true zone.name) zones

abbrev pub records_of : Option MemZone → List ResourceRecord
records_of none = []
records_of (some z) = z.records

-- The loop of `findZone`: a zone with at least as many labels as the best so far replaces it.
unfoldable pub best_zone : DnsName → Option ZoneInfo → ℕ → MemoryBackend → Option ZoneInfo
unfolding is_subdomain_of equals
best_zone qname best best_labels [] = best
best_zone qname best best_labels ((k, z) ∷ zones) =
    let n = z.info.name in
    let better = (is_subdomain_of qname n || equals qname n) && leb best_labels (length n.labels) in
    best_zone qname (if better then some z.info else best)
      (if better then length n.labels else best_labels) zones

unfoldable pub find_zone : MemoryBackend → DnsName → Option ZoneInfo
unfolding best_zone
find_zone zones qname = best_zone qname none 0 zones

unfoldable pub list_zones : MemoryBackend → List ZoneInfo
list_zones [] = []
list_zones ((k, z) ∷ zones) = z.info ∷ list_zones zones

abbrev pub answers_to : DnsName → ℕ → ResourceRecord → Bool
answers_to qname qtype rr =
    not (rr.disabled || not (equals rr.name qname)) && (qtype == RrType.any || rr.type == qtype)

unfoldable pub lookup : MemoryBackend → ZoneInfo → DnsName → ℕ → List ResourceRecord
unfolding get equals
lookup zones zone qname qtype = keep_if (answers_to qname qtype) (records_of (get zones zone))

unfoldable pub list_zone : MemoryBackend → ZoneInfo → List ResourceRecord
unfolding get
list_zone zones zone = records_of (get zones zone)

unfoldable pub name_exists : MemoryBackend → ZoneInfo → DnsName → Bool
unfolding get equals is_subdomain_of
name_exists zones zone qname =
    any_of (λ rr. equals rr.name qname || is_subdomain_of rr.name qname)
      (records_of (get zones zone))

abbrev pub delegates : ZoneInfo → DnsName → ResourceRecord → Bool
delegates zone cur rr = equals rr.name cur && rr.type == RrType.ns && not (equals cur zone.name)

-- The loop of `findDelegation`, from `qname` towards the zone's own name.
unfoldable pub cut_from : List ResourceRecord → ZoneInfo → List Bytes → Option DnsName
unfolding equals
cut_from records zone [] = none
cut_from records zone (l ∷ labels) =
    let cur : DnsName = record { labels = l ∷ labels } in
    let above = cut_from records zone labels in
    if equals cur zone.name
    then none
    else if any_of (delegates zone cur) records
    then some cur
    else above

unfoldable pub find_delegation : MemoryBackend → ZoneInfo → DnsName → Option DnsName
unfolding get cut_from
find_delegation zones zone qname = elim (get zones zone) [
  | none ↦ none
  | some z ↦ cut_from z.records zone qname.labels
]

unfoldable pub begin : MemoryBackend → ZoneInfo → Option MemoryTransaction
unfolding get
begin zones zone = elim (get zones zone) [
  | none ↦ none
  | some z ↦ some (new_transaction (to_lower_string true zone.name))
]

module _ (net : Inet) where
  -- The first record of a new zone; `none` where filling in its data throws.
  first_record : ZoneInfo → ResourceRecord → Outcome ResourceRecord
  unfolding content_to_rdata
  first_record zone soa =
      let s = record soa { name = zone.name; type = RrType.soa } in
      if is_empty s.rdata
      then elim (content_to_rdata net s) [ ok (done, s') ↦ ok s' | thrown ↦ thrown ]
      else ok s

  unfoldable pub create_zone :
      MemoryBackend → ZoneInfo → ResourceRecord → Outcome Bool × MemoryBackend
  unfolding first_record to_lower_string StringMap.lookup StringMap.insert
  create_zone zones zone soa =
      let key = to_lower_string true zone.name in
      let info = record zone { id = pos (StringMap.size zones + 1) } in
      elim (StringMap.lookup key zones) [
        | some z ↦ (ok false, zones)
        | none ↦ elim (first_record zone soa) [
          | thrown ↦ (thrown, zones)
          | ok s ↦ (ok true, StringMap.insert key (record { info = info; records = s ∷ [] }) zones)
        ]
      ]

unfoldable pub delete_zone : MemoryBackend → ZoneInfo → Bool × MemoryBackend
unfolding StringMap.lookup StringMap.erase to_lower_string
delete_zone zones zone =
    let key = to_lower_string true zone.name in
    elim (StringMap.lookup key zones) [
      | none ↦ (false, zones)
      | some z ↦ (true, StringMap.erase key zones)
    ]

-- The class as an implementation of the interface.
abbrev pub memory_backend : Inet → Backend MemoryBackend MemoryTransaction
memory_backend net = record {
  initialize = λ zones. (ok true, zones);
  writable = λ zones. true;
  find_zone = find_zone;
  list_zones = list_zones;
  lookup = lookup;
  list_zone = list_zone;
  name_exists = name_exists;
  find_delegation = find_delegation;
  begin = begin;
  create_zone = create_zone net;
  delete_zone = delete_zone;
  transaction = operations net;
}
