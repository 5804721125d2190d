-- ===== src/BindFile.antt =====
-- The BIND zone-file backend, src/simple-dnsd/backend/bindfile.cpp. Its state is the map of its zones
-- with the disk that it writes through to. Each call holds the mutex to its end, so calls are steps.
pub mod Edit
pub mod Agreement
pub mod Commit
use simple_dnsd.Base.{
  ℕ, ◌+◌, Bool, true, false, not, ◌&&◌, ◌||◌, Option, none, some, List, [], ◌∷◌, ◌++◌, leb, ◌==◌,
  if◌then◌else◌, Bytes, length, keep_if, any_of,
}
use simple_dnsd.Outcome.{Outcome, ok, thrown}
use simple_dnsd.Name.{DnsName, equals, is_subdomain_of, to_lower_string}
use simple_dnsd.StringMap
use simple_dnsd.StringMap.{StringMap}
use simple_dnsd.Record.{ResourceRecord}
use simple_dnsd.Record.RrType
use simple_dnsd.Inet.{Inet}
use simple_dnsd.Rdata.{content_to_rdata}
use simple_dnsd.Backend.{ZoneInfo, pos, Backend, Transaction}
use simple_dnsd.Files.{Files}
use simple_dnsd.Zone.Parse.{ZoneParseResult, parsed, failed, parse_zone_file}
use simple_dnsd.Zone.Write.{write_zone_text}
use simple_dnsd.Zone.NamedConf.{NamedZone, read_named_conf, write_named_conf, file_name}
use simple_dnsd.BindFile.Edit.{
  BindTransaction, add_record, replace_rrset, delete_rrset, delete_name, set_soa_serial,
}

-- `Mem`
pub record BindZone : Type 0 where
  pub info : ZoneInfo
  pub file : Bytes
  pub records : List ResourceRecord

abbrev pub BindZones : Type 0
BindZones = StringMap BindZone

pub record BindBackend (D : Type 0) : Type 0 where
  pub named_conf : Bytes
  pub zones : BindZones
  pub disk : D

-- `get`
unfoldable pub get : BindZones → ZoneInfo → Option BindZone
unfolding StringMap.lookup to_lower_string
get zones zone = StringMap.lookup (to_lower_string true zone.name) zones

abbrev pub records_of : Option BindZone → List ResourceRecord
records_of none = []
records_of (some z) = z.records

unfoldable pub best_zone : DnsName → Option ZoneInfo → ℕ → BindZones → Option ZoneInfo
unfolding is_subdomain_of equals
best_zone qname best best_labels [] = best
best_zone qname best best_labels ((k, z) ∷ zones) =
    let n = z.info.name in
    let better = (is_subdomain_of qname n || equals qname n) && leb best_labels (length n.labels) in
    best_zone qname (if better then some z.info else best)
      (if better then length n.labels else best_labels) zones

unfoldable pub find_zone : BindZones → DnsName → Option ZoneInfo
unfolding best_zone
find_zone zones qname = best_zone qname none 0 zones

unfoldable pub list_zones : BindZones → List ZoneInfo
list_zones [] = []
list_zones ((k, z) ∷ zones) = z.info ∷ list_zones zones

-- Disabled records are not left out here.
abbrev pub answers_to : DnsName → ℕ → ResourceRecord → Bool
answers_to qname qtype rr = equals rr.name qname && (qtype == RrType.any || rr.type == qtype)

unfoldable pub lookup : BindZones → ZoneInfo → DnsName → ℕ → List ResourceRecord
unfolding get equals
lookup zones zone qname qtype = keep_if (answers_to qname qtype) (records_of (get zones zone))

unfoldable pub list_zone : BindZones → ZoneInfo → List ResourceRecord
unfolding get
list_zone zones zone = records_of (get zones zone)

unfoldable pub name_exists : BindZones → ZoneInfo → DnsName → Bool
unfolding get equals is_subdomain_of
name_exists zones zone qname =
    any_of (λ rr. equals rr.name qname || is_subdomain_of rr.name qname)
      (records_of (get zones zone))

abbrev pub delegates : ZoneInfo → DnsName → ResourceRecord → Bool
delegates zone cur rr = equals rr.name cur && rr.type == RrType.ns && not (equals cur zone.name)

-- The loop of `findDelegation`, from `qname` towards the zone's own name.
unfoldable pub cut_from : List ResourceRecord → ZoneInfo → List Bytes → Option DnsName
unfolding equals
cut_from records zone [] = none
cut_from records zone (l ∷ labels) =
    let cur : DnsName = record { labels = l ∷ labels } in
    let above = cut_from records zone labels in
    if equals cur zone.name
    then none
    else if any_of (delegates zone cur) records
    then some cur
    else above

unfoldable pub find_delegation : BindZones → ZoneInfo → DnsName → Option DnsName
unfolding get cut_from
find_delegation zones zone qname = elim (get zones zone) [
  | none ↦ none
  | some z ↦ cut_from z.records zone qname.labels
]

-- The transaction works on a copy of the zone's records.
unfoldable pub begin : BindZones → ZoneInfo → Option BindTransaction
unfolding get
begin zones zone = elim (get zones zone) [
  | none ↦ none
  | some z ↦ some (record { key = to_lower_string true zone.name; records = z.records })
]

abbrev pub named_of : BindZone → NamedZone
named_of z = record { info = z.info; file = file_name (record { info = z.info; file = z.file }) }

module _ {D : Type 0} (files : Files D) (net : Inet) where
  -- The loop of `persistLocked`. What a write returns is not looked at.
  write_zones : D → BindZones → D × List NamedZone
  unfolding write_zone_text
  write_zones disk [] = (disk, [])
  write_zones disk ((k, z) ∷ zones) =
      let nz = named_of z in
      let (disk', named) =
        write_zones (files.write disk nz.file (write_zone_text net z.info.name z.records)).1
          zones in
      (disk', nz ∷ named)

  unfoldable pub persist_locked : BindBackend D → BindBackend D
  unfolding write_zones write_named_conf
  persist_locked b =
      let (disk, named) = write_zones b.disk b.zones in
      record b { disk = (files.write disk b.named_conf (write_named_conf named)).1 }

  first_record : ZoneInfo → ResourceRecord → Outcome ResourceRecord
  unfolding content_to_rdata
  first_record zone soa =
      elim (content_to_rdata net (record soa { name = zone.name; type = RrType.soa })) [
        | ok (done, s) ↦ ok s
        | thrown ↦ thrown
      ]

  -- A zone of the same name is written over.
  unfoldable pub create_zone :
      BindBackend D → ZoneInfo → ResourceRecord → Outcome Bool × BindBackend D
  unfolding first_record persist_locked StringMap.insert to_lower_string
  create_zone b zone soa = elim (first_record zone soa) [
    | thrown ↦ (thrown, b)
    | ok s ↦
        (let z : BindZone = record {
          info = record zone { id = pos (StringMap.size b.zones + 1) };
          file = [];
          records = s ∷ [];
        } in
          (
            ok true,
            persist_locked
                (record b { zones = StringMap.insert (to_lower_string true zone.name) z b.zones }),
          ))
  ]

  unfoldable pub delete_zone : BindBackend D → ZoneInfo → Bool × BindBackend D
  unfolding persist_locked StringMap.erase to_lower_string
  delete_zone b zone = (
    true,
    persist_locked (record b { zones = StringMap.erase (to_lower_string true zone.name) b.zones }),
  )

  -- `Tx::commit`
  unfoldable pub commit : BindTransaction → BindBackend D → Outcome Bool × BindBackend D
  unfolding persist_locked StringMap.lookup StringMap.insert
  commit tx b = elim (StringMap.lookup tx.key b.zones) [
    | none ↦ (ok false, b)
    | some z ↦ (
      ok true,
      persist_locked (record b {
        zones = StringMap.insert tx.key (record z { records = tx.records }) b.zones;
      }),
    )
  ]

  -- The loop of `initialize`. `depth` bounds how deep zone files include one another.
  load_zones : ℕ → D → BindZones → List NamedZone → Outcome Bool × BindZones
  unfolding parse_zone_file StringMap.insert to_lower_string
  load_zones depth disk zones [] = (ok true, zones)
  load_zones depth disk zones (nz ∷ named) =
      elim (parse_zone_file net (files.read disk) depth nz.file nz.info.name 3600) [
        | thrown ↦ (thrown, zones)
        | ok (failed error) ↦ (ok false, zones)
        | ok (parsed records) ↦
            (let z : BindZone = record {
              info = record (nz.info) { id = pos (StringMap.size zones + 1) };
              file = nz.file;
              records = records;
            } in
              load_zones depth disk (StringMap.insert (to_lower_string true nz.info.name) z zones)
                named)
      ]

  unfoldable pub initialize : ℕ → BindBackend D → Outcome Bool × BindBackend D
  unfolding load_zones read_named_conf
  initialize depth b = elim (read_named_conf (files.read b.disk b.named_conf)) [
    | [] ↦ (ok false, b)
    | nz ∷ named ↦
        (let (done, zones) = load_zones depth b.disk [] (nz ∷ named) in
          (done, record b { zones = zones }))
  ]

  abbrev pub operations : Transaction (BindBackend D) BindTransaction
  operations = record {
    add_record = add_record;
    replace_rrset = replace_rrset;
    delete_rrset = delete_rrset;
    delete_name = delete_name;
    drop_zone = λ tx. (true, tx);
    set_soa_serial = set_soa_serial net;
    commit = commit;
    rollback = λ tx. tx;
  }

  -- The class as an implementation of the interface.
  abbrev pub bind_backend : ℕ → Backend (BindBackend D) BindTransaction
  bind_backend depth = record {
    initialize = initialize depth;
    writable = λ b. true;
    find_zone = λ b. find_zone b.zones;
    list_zones = λ b. list_zones b.zones;
    lookup = λ b. lookup b.zones;
    list_zone = λ b. list_zone b.zones;
    name_exists = λ b. name_exists b.zones;
    find_delegation = λ b. find_delegation b.zones;
    begin = λ b. begin b.zones;
    create_zone = create_zone;
    delete_zone = delete_zone;
    transaction = operations;
  }
