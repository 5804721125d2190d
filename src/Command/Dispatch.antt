-- ===== src/Command/Dispatch.antt =====
-- `runDnsutil` of src/simple-dnsd/cli/util.cpp: the options, the backends, and the command.
pub mod Unknown
use simple_dnsd.Base.{
  ℕ, Bool, true, false, ◌||◌, Option, none, some, List, [], ◌∷◌, ◌++◌, if◌then◌else◌, Bytes, codes,
  str_eq,
}
use simple_dnsd.Outcome.{Outcome, ok, thrown}
use simple_dnsd.Name.{parse}
use simple_dnsd.Inet.{Inet}
use simple_dnsd.Backend.{ZoneInfo, Backend}
use simple_dnsd.Router
use simple_dnsd.Router.Launch.{Factories, load_backends}
use simple_dnsd.Config.{DnsConfig, default_config}
use simple_dnsd.Config.Load.{load_from_file}
use simple_dnsd.Files.{Files}
use simple_dnsd.Command.{
  World, Run, exit, listed, require_zone, create_zone, delete_zone, list_zone, write_record,
  delete_rrset, check, increase_serial, export_zones, import_file, copy_to,
}

-- What the arguments ask for: an exit, or a command under a configuration.
pub data Options : Type 0 where
  stop : ℕ → Options
  go : DnsConfig → List Bytes → Options

abbrev is_help : Bytes → Bool
is_help arg =
    str_eq arg (codes "--help")
    || str_eq arg (codes "-h")
    || str_eq arg (codes "--version")
    || str_eq arg (codes "-v")

abbrev is_config : Bytes → Bool
is_config arg = str_eq arg (codes "--config") || str_eq arg (codes "-c")

module _ {D : Type 0} (files : Files D) where
  unfoldable pub parse_options : D → DnsConfig → List Bytes → List Bytes → Outcome Options
  unfolding load_from_file
  parse_options disk c args [] = ok (go c args)
  parse_options disk c args (arg ∷ []) =
      if is_help arg
      then ok (stop 0)
      else if is_config arg
      then ok (stop 1)
      else ok (go c (args ++ arg ∷ []))
  parse_options disk c args (arg ∷ file ∷ more) =
      let (loaded, c') = load_from_file c (files.read disk file) in
      let next = parse_options disk c (args ++ arg ∷ []) (file ∷ more) in
      let configured = parse_options disk c' args more in
      if is_help arg
      then ok (stop 0)
      else if is_config arg
      then elim loaded [ thrown ↦ thrown | ok false ↦ ok (stop 1) | ok true ↦ configured ]
      else next

module _ {D S T : Type 0} (files : Files D) (net : Inet) (ops : Backend S T) (make : Factories S)
    (depth : ℕ) where
  -- The commands that work on one zone, which is their first argument.
  abbrev zone_command : DnsConfig → World D S → Bytes → Option (ZoneInfo → List Bytes → Run D S)
  zone_command c w cmd =
      if str_eq cmd (codes "delete-zone")
      then some (λ zone args. delete_zone files net ops w zone)
      else if str_eq cmd (codes "list-zone")
      then some (λ zone args. list_zone files net ops w zone)
      else if str_eq cmd (codes "add-record")
      then some (λ zone args. write_record files net ops w false zone args)
      else if str_eq cmd (codes "replace-rrset")
      then some (λ zone args. write_record files net ops w true zone args)
      else if str_eq cmd (codes "delete-rrset")
      then some (λ zone args. delete_rrset files net ops w zone args)
      else if str_eq cmd (codes "check-zone")
      then some (λ zone args. check files net ops w false zone)
      else if str_eq cmd (codes "rectify-zone")
      then some (λ zone args. check files net ops w true zone)
      else if str_eq cmd (codes "increase-serial")
      then some (λ zone args. increase_serial files net ops w zone)
      else if str_eq cmd (codes "backend-copy")
      then some (λ zone args. copy_to files net ops make c w zone args)
      else none

  on_zone : World D S → List Bytes → (ZoneInfo → List Bytes → Run D S) → Run D S
  unfolding require_zone parse
  on_zone w [] command = exit 1 w
  on_zone w (name ∷ args) command = elim (require_zone files net ops w.backends (parse name)) [
    | none ↦ exit 1 w
    | some zone ↦ command zone args
  ]

  unfoldable pub run_command : DnsConfig → World D S → Bytes → List Bytes → Run D S
  unfolding on_zone create_zone listed Router.list_zones export_zones import_file delete_zone
      list_zone write_record delete_rrset check increase_serial copy_to
  run_command c w cmd args = elim (zone_command c w cmd) [
    | some command ↦ on_zone w args command
    | none ↦
        if str_eq cmd (codes "list-zones")
        then exit 0 (record w { printed = w.printed ++ listed (Router.list_zones ops w.backends) })
        else if str_eq cmd (codes "create-zone")
        then create_zone files net ops w args
        else if str_eq cmd (codes "export-bind")
        then export_zones files net ops w args
        else if str_eq cmd (codes "import-bind")
        then import_file files net ops depth w args
        else exit 1 w
  ]

  -- The program with these arguments, the name of the program left out.
  unfoldable pub run_dnsutil : D → List Bytes → Run D S
  unfolding parse_options load_backends run_command
  run_dnsutil disk arguments =
      let start : World D S = record { backends = []; disk = disk; printed = []; others = [] } in
      elim (parse_options files disk (record default_config { launch = codes "memory" }) []
        arguments) [
          | thrown ↦ (thrown, start)
          | ok (stop code) ↦ exit code start
          | ok (go c []) ↦ exit 1 start
          | ok (go c (cmd ∷ args)) ↦
              (let (loaded, backends) = load_backends make c ops [] in
                let w = record start { backends = backends } in
                elim loaded [
                  | thrown ↦ (thrown, w)
                  | ok false ↦ exit 1 w
                  | ok true ↦ run_command c w cmd args
                ])
        ]
