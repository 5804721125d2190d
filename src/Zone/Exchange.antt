-- ===== src/Zone/Exchange.antt =====
-- `exportBind` and `importBind` of src/simple-dnsd/zone/zone.cpp: the zones of a router to and from BIND's files.
pub mod Exported
use simple_dnsd.Base.{
  ℕ, Bool, true, false, not, ◌&&◌, Option, none, some, List, [], ◌∷◌, ◌++◌, ◌==◌, if◌then◌else◌,
  Bytes, codes, is_empty, find_if,
}
use simple_dnsd.Outcome.{Outcome, ok, thrown}
use simple_dnsd.Name.{DnsName, equals, to_string}
use simple_dnsd.Record.{ResourceRecord, new_record}
use simple_dnsd.Record.RrType
use simple_dnsd.Inet.{Inet}
use simple_dnsd.Backend.{ZoneInfo, new_zone, Backend}
use simple_dnsd.Router
use simple_dnsd.Files.{Files}
use simple_dnsd.Zone.Parse.{ZoneParseResult, parsed, failed, parse_zone_file}
use simple_dnsd.Zone.Write.{write_zone_text}
use simple_dnsd.Zone.NamedConf.{NamedZone, read_named_conf, write_named_conf}

abbrev opened : Option Bool → Bool
opened none = false
opened (some good) = true

abbrev good_at_end : Option Bool → Bool
good_at_end none = false
good_at_end (some good) = good

abbrev soa_in : List ResourceRecord → Option ResourceRecord
soa_in rrs = find_if (λ rr. rr.type == RrType.soa) rrs

abbrev or_new : Option ResourceRecord → ResourceRecord
or_new none = new_record
or_new (some rr) = rr

module _ {D S T : Type 0} (files : Files D) (net : Inet) (ops : Backend S T) where
  abbrev pub file_of : Bytes → ZoneInfo → Bytes
  unfolding to_string
  file_of out_dir z = out_dir ++ (codes "/" ++ (to_string false z.name ++ codes ".zone"))

  -- `writeZoneFile`
  unfoldable pub write_zone_file : D → Bytes → DnsName → List ResourceRecord → Bool × D
  unfolding write_zone_text
  write_zone_file disk path origin rrs =
      let (written, disk') = files.write disk path (write_zone_text net origin rrs) in
      (good_at_end written, disk')

  abbrev pub is_wanted : Option DnsName → ZoneInfo → Bool
  is_wanted none z = true
  is_wanted (some name) z = equals z.name name

  -- The loop of `exportBind`; it ends at the first file that is not written.
  unfoldable pub export_zones :
      D → List S → Option DnsName → Bytes → List ZoneInfo → Option (List NamedZone) × D
  unfolding write_zone_file Router.list_zone equals to_string
  export_zones disk backends wanted out_dir [] = (some [], disk)
  export_zones disk backends wanted out_dir (z ∷ zones) = elim (is_wanted wanted z) [
    | false ↦ export_zones disk backends wanted out_dir zones
    | true ↦
        (let (written, disk') =
            write_zone_file disk (file_of out_dir z) z.name (Router.list_zone ops backends z) in
          elim written [
            | false ↦ (none, disk')
            | true ↦
                (let (named, disk'') = export_zones disk' backends wanted out_dir zones in
                  elim named [
                    | none ↦ (none, disk'')
                    | some nzs ↦
                        (some (record { info = z; file = file_of out_dir z } ∷ nzs), disk'')
                  ])
          ])
  ]

  unfoldable pub export_bind : D → List S → Option DnsName → Bytes → Bytes → Bool × D
  unfolding export_zones write_named_conf Router.list_zones
  export_bind disk backends wanted out_dir named_conf =
      let (named, disk') =
        export_zones (files.make_dir disk out_dir) backends wanted out_dir
          (Router.list_zones ops backends) in
      elim named [
        | none ↦ (false, disk')
        | some nzs ↦
            if is_empty named_conf
            then (true, disk')
            else (let (written, disk'') = files.write disk' named_conf (write_named_conf nzs) in
                (opened written, disk''))
      ]

  -- The records but the SOA, added to a transaction.
  add_plain : T → List ResourceRecord → T
  add_plain tx [] = tx
  add_plain tx (rr ∷ rrs) =
      add_plain (if rr.type == RrType.soa then tx else (ops.transaction.add_record tx rr).1) rrs

  -- The transaction that fills the zone `z`, where there is one.
  fill : List S → ZoneInfo → List ResourceRecord → Option (Outcome Bool × List S)
  unfolding add_plain Router.begin Router.commit
  fill backends z rrs = elim (Router.begin ops backends z) [
    | none ↦ none
    | some (i, b, tx) ↦ some (Router.commit ops backends (i, b, add_plain tx rrs))
  ]

  abbrev filled_or_failed : List S → Option (Outcome Bool × List S) → Outcome Bool × List S
  filled_or_failed backends none = (ok false, backends)
  filled_or_failed backends (some done) = done

  -- A file that is one zone. `origin` is that of the zone where its SOA has no name of its own.
  import_records : List S → DnsName → List ResourceRecord → ResourceRecord → Outcome Bool × List S
  unfolding fill Router.create_zone Router.find_zone
  import_records backends name rrs soa =
      let z : ZoneInfo = record new_zone { name = name } in
      let (made, backends') = Router.create_zone ops backends z soa in
      elim made [
        | thrown ↦ (thrown, backends')
        | ok true ↦ filled_or_failed backends' (fill backends' z rrs)
        | ok false ↦ elim (Router.find_zone ops backends' name) [
          | none ↦ (ok false, backends')
          | some existing ↦ filled_or_failed backends' (fill backends' existing rrs)
        ]
      ]

  import_zone : List S → DnsName → List ResourceRecord → Outcome Bool × List S
  unfolding import_records
  import_zone backends org rrs = elim (soa_in rrs) [
    | none ↦ (ok false, backends)
    | some soa ↦
        if is_empty soa.rdata && is_empty soa.content
        then (ok false, backends)
        else import_records backends soa.name rrs soa
  ]

  -- A zone of a `named.conf`; one that cannot be made, found or begun is passed over.
  import_named : List S → ZoneInfo → List ResourceRecord → Outcome Bool × List S
  unfolding fill Router.create_zone Router.find_zone
  import_named backends info rrs =
      let (made, backends') = Router.create_zone ops backends info (or_new (soa_in rrs)) in
      elim made [
        | thrown ↦ (thrown, backends')
        | ok false ↦ (ok true, backends')
        | ok true ↦ elim (Router.find_zone ops backends' info.name) [
          | none ↦ (ok true, backends')
          | some created ↦ elim (fill backends' created rrs) [
            | none ↦ (ok true, backends')
            | some (thrown, backends'') ↦ (thrown, backends'')
            | some (ok b, backends'') ↦ (ok true, backends'')
          ]
        ]
      ]

  module _ (depth : ℕ) where
    abbrev read_zone : D → Bytes → DnsName → Outcome ZoneParseResult
    unfolding parse_zone_file
    read_zone disk path origin = parse_zone_file net (files.read disk) depth path origin 3600

    import_all : D → List S → List NamedZone → Outcome Bool × List S
    unfolding import_named parse_zone_file
    import_all disk backends [] = (ok true, backends)
    import_all disk backends (nz ∷ named) = elim (read_zone disk nz.file nz.info.name) [
      | thrown ↦ (thrown, backends)
      | ok (failed error) ↦ (ok false, backends)
      | ok (parsed rrs) ↦
          (let (done, backends') = import_named backends nz.info rrs in
            elim done [ thrown ↦ (thrown, backends') | ok b ↦ import_all disk backends' named ])
    ]

    -- `importBind`; `depth` bounds how deep zone files include one another.
    unfoldable pub import_bind : D → List S → Bytes → DnsName → Outcome Bool × List S
    unfolding import_all import_zone read_named_conf parse_zone_file
    import_bind disk backends path origin = elim (read_named_conf (files.read disk path)) [
      | nz ∷ named ↦ import_all disk backends (nz ∷ named)
      | [] ↦ elim (read_zone disk path origin) [
        | thrown ↦ (thrown, backends)
        | ok (failed error) ↦ (ok false, backends)
        | ok (parsed rrs) ↦ import_zone backends origin rrs
      ]
    ]
