-- ===== src/Command.antt =====
-- `simple-dnsutil`, src/simple-dnsd/cli/util.cpp. What is printed to `std::cout` is kept as text; what is
-- printed to `std::cerr` and the texts of usage and version are left out.
pub mod Dispatch
use simple_dnsd.Base.{
  ℕ, ◌+◌, ◌%◌, ◌^◌, Bool, true, false, not, ◌&&◌, ◌||◌, Option, none, some, List, [], ◌∷◌, ◌++◌,
  ◌==◌, if◌then◌else◌, Bytes, codes, str_eq,
}
use simple_dnsd.Outcome.{Outcome, ok, thrown, ◌>>=◌}
use simple_dnsd.Text.Number.{decimal}
use simple_dnsd.Name.{DnsName, root, parse, to_string, equals}
use simple_dnsd.Record.{ResourceRecord, new_record}
use simple_dnsd.Record.RrType
use simple_dnsd.Record.RrType.{rr_type_from_string, rr_type_to_string}
use simple_dnsd.Inet.{Inet}
use simple_dnsd.Rdata.{content_to_rdata}
use simple_dnsd.Serial.{with_text}
use simple_dnsd.Backend.{ZoneInfo, new_zone, Backend}
use simple_dnsd.Router
use simple_dnsd.Router.Launch.{Factories, load_backends}
use simple_dnsd.Config.{DnsConfig, default_config}
use simple_dnsd.Config.Load.{load_from_file, u32_of}
use simple_dnsd.Files.{Files}
use simple_dnsd.Zone.Check.{check_zone, rectify_zone}
use simple_dnsd.Zone.Exchange.{export_bind, import_bind}
use simple_dnsd.Engine.Update.{stage_serial}
use simple_dnsd.Gsql.Statement.{signed}

-- What a command works on: the backends of the configuration, the disk, what was printed, and the
-- backends that a zone is copied to.
pub record World (D S : Type 0) : Type 0 where
  pub backends : List S
  pub disk : D
  pub printed : Bytes
  pub others : List S

-- The exit code, or an exception that ends the program, and what is left behind.
abbrev pub Run : Type 0 → Type 0 → Type 0
Run D S = Outcome ℕ × World D S

abbrev pub exit : {D S : Type 0} → ℕ → World D S → Run D S
exit code w = (ok code, w)

-- `flag ? 0 : 1`
abbrev pub exit_code : Outcome Bool → Outcome ℕ
exit_code thrown = thrown
exit_code (ok true) = ok 0
exit_code (ok false) = ok 1

unfoldable pub listed : List ZoneInfo → Bytes
unfolding to_string signed
listed [] = []
listed (z ∷ zones) =
    to_string true z.name ++ (codes "\t" ++ (signed z.id ++ (codes "\n" ++ listed zones)))

module _ {D S T : Type 0} (files : Files D) (net : Inet) (ops : Backend S T) where
  shown : List ResourceRecord → Bytes
  unfolding to_string decimal rr_type_to_string
  shown [] = []
  shown (rr ∷ rrs) =
      to_string true rr.name
      ++ (codes "\t"
          ++ (decimal rr.ttl
              ++ (codes "\t"
                  ++ (rr_type_to_string rr.type
                      ++ (codes "\t"
                          ++ ((with_text net rr).content ++ (codes "\n" ++ shown rrs)))))))

  unfoldable pub make_soa : DnsName → Bytes → Bytes → Outcome ResourceRecord
  unfolding content_to_rdata
  make_soa zone ns hostmaster = do
    filled ← content_to_rdata net (record new_record {
      name = zone;
      type = RrType.soa;
      ttl = 3600;
      content = ns ++ (codes " " ++ (hostmaster ++ codes " 1 10800 3600 604800 3600"));
    })
    ok filled.1

  unfoldable pub require_zone : List S → DnsName → Option ZoneInfo
  unfolding Router.find_zone equals
  require_zone backends name = elim (Router.find_zone ops backends name) [
    | none ↦ none
    | some zone ↦ if equals zone.name name then some zone else none
  ]

  -- `tx->commit() ? 0 : 1`
  commit_all : World D S → ℕ × S × T → Run D S
  unfolding Router.commit
  commit_all w staged =
      let (done, backends) = Router.commit ops w.backends staged in
      (exit_code done, record w { backends = backends })

  abbrev or_default : Bytes → List Bytes → Bytes
  or_default d [] = d
  or_default d (a ∷ args) = a

  abbrev rest_of_args : List Bytes → List Bytes
  rest_of_args [] = []
  rest_of_args (a ∷ args) = args

  unfoldable pub create_zone : World D S → List Bytes → Run D S
  unfolding make_soa parse to_string Router.create_zone
  create_zone w [] = exit 1 w
  create_zone w (name ∷ args) =
      let zone = parse name in
      let ns = or_default (codes "ns." ++ to_string false zone) args in
      let hm = or_default (codes "hostmaster." ++ to_string false zone) (rest_of_args args) in
      elim (make_soa zone ns hm) [
        | thrown ↦ (thrown, w)
        | ok soa ↦
            (let (made, backends) =
                Router.create_zone ops w.backends (record new_zone { name = zone }) soa in
              (exit_code made, record w { backends = backends }))
      ]

  unfoldable pub delete_zone : World D S → ZoneInfo → Run D S
  unfolding Router.delete_zone
  delete_zone w zone =
      let (done, backends) = Router.delete_zone ops w.backends zone in
      (exit_code (ok done), record w { backends = backends })

  unfoldable pub list_zone : World D S → ZoneInfo → Run D S
  unfolding shown Router.list_zone
  list_zone w zone =
      exit 0 (record w { printed = w.printed ++ shown (Router.list_zone ops w.backends zone) })

  abbrev ttl_of : List Bytes → Outcome ℕ
  unfolding u32_of
  ttl_of [] = ok 3600
  ttl_of (t ∷ args) = u32_of t

  -- The record of `add-record` and `replace-rrset`.
  record_of : Bytes → ℕ → Bytes → List Bytes → Outcome ResourceRecord
  unfolding parse content_to_rdata u32_of
  record_of name type content args = do
    ttl ← ttl_of args
    filled ←
        content_to_rdata net
          (record new_record { name = parse name; type = type; content = content; ttl = ttl })
    ok filled.1

  unfoldable pub write_record : World D S → Bool → ZoneInfo → List Bytes → Run D S
  unfolding record_of commit_all rr_type_from_string Router.begin
  write_record w replaces zone (name ∷ word ∷ content ∷ args) = elim (rr_type_from_string word) [
    | none ↦ exit 1 w
    | some type ↦ elim (record_of name type content args) [
      | thrown ↦ (thrown, w)
      | ok rr ↦ elim (Router.begin ops w.backends zone) [
        | none ↦ exit 1 w
        | some (i, b, tx) ↦ commit_all w (
          i,
          b,
          if replaces
              then (ops.transaction.replace_rrset tx rr.name rr.type (rr ∷ [])).1
              else (ops.transaction.add_record tx rr).1,
        )
      ]
    ]
  ]
  write_record w replaces zone _ = exit 1 w

  unfoldable pub delete_rrset : World D S → ZoneInfo → List Bytes → Run D S
  unfolding commit_all parse rr_type_from_string Router.begin
  delete_rrset w zone (name ∷ word ∷ args) = elim (rr_type_from_string word) [
    | none ↦ exit 1 w
    | some type ↦ elim (Router.begin ops w.backends zone) [
      | none ↦ exit 1 w
      | some (i, b, tx) ↦ commit_all w (i, b, (ops.transaction.delete_rrset tx (parse name) type).1)
    ]
  ]
  delete_rrset w zone _ = exit 1 w

  unfoldable pub check : World D S → Bool → ZoneInfo → Run D S
  unfolding check_zone rectify_zone Router.list_zone
  check w rectifies zone =
      let rrs = Router.list_zone ops w.backends zone in
      elim (if rectifies then rectify_zone net rrs else ok rrs) [
        | thrown ↦ (thrown, w)
        | ok rrs' ↦ (exit_code (ok (check_zone zone.name rrs').passed), w)
      ]

  unfoldable pub increase_serial : World D S → ZoneInfo → Run D S
  unfolding commit_all stage_serial Router.lookup Router.begin
  increase_serial w zone = elim (Router.lookup ops w.backends zone zone.name RrType.soa) [
    | [] ↦ exit 1 w
    | soa ∷ soas ↦ elim (Router.begin ops w.backends zone) [
      | none ↦ exit 1 w
      | some (i, b, tx) ↦
          (let (set, tx') = stage_serial net ops tx (soa ∷ soas) in
            elim set [ thrown ↦ (thrown, w) | ok done ↦ commit_all w (i, b, tx') ])
    ]
  ]

  -- The options of `export-bind`; anything else among them is passed over.
  pub record ExportOptions : Type 0 where
    pub zone : Option DnsName
    pub out_dir : Bytes
    pub named_conf : Bytes

  unfoldable pub export_options : ExportOptions → List Bytes → ExportOptions
  unfolding parse
  export_options o (flag ∷ value ∷ args) =
      let zone = export_options (record o { zone = some (parse value) }) args in
      let out = export_options (record o { out_dir = value }) args in
      let conf = export_options (record o { named_conf = value }) args in
      let past = export_options o (value ∷ args) in
      if str_eq flag (codes "--zone")
      then zone
      else if str_eq flag (codes "--out")
      then out
      else if str_eq flag (codes "--named-conf")
      then conf
      else past
  export_options o _ = o

  unfoldable pub export_zones : World D S → List Bytes → Run D S
  unfolding export_options export_bind
  export_zones w args =
      let o = export_options (record { zone = none; out_dir = codes "."; named_conf = [] }) args in
      let (done, disk) =
        export_bind files net ops w.disk w.backends o.zone o.out_dir o.named_conf in
      (exit_code (ok done), record w { disk = disk })

  unfoldable pub import_file : ℕ → World D S → List Bytes → Run D S
  unfolding import_bind parse
  import_file depth w [] = exit 1 w
  import_file depth w (path ∷ args) =
      let origin : DnsName = elim args [ [] ↦ root | o ∷ more ↦ parse o ] in
      let (done, backends) = import_bind files net ops depth w.disk w.backends path origin in
      (exit_code done, record w { backends = backends })

  module _ (make : Factories S) where
    unfoldable pub copy_to : DnsConfig → World D S → ZoneInfo → List Bytes → Run D S
    unfolding load_backends Router.writable_backend Router.copy_zone
    copy_to c w zone [] = exit 1 w
    copy_to c w zone (launch ∷ args) =
        let (loaded, dest) = load_backends make (record c { launch = launch }) ops [] in
        elim loaded [
          | thrown ↦ (thrown, w)
          | ok false ↦ exit 1 w
          | ok true ↦ elim (Router.writable_backend ops dest) [
            | none ↦ exit 1 w
            | some (i, target) ↦
                (let (done, target') = Router.copy_zone ops w.backends zone target in
                  (exit_code done, record w { others = target' ∷ [] }))
          ]
        ]
