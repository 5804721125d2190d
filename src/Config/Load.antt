-- ===== src/Config/Load.antt =====
-- `DnsConfig::loadFromFile` and `launchBackends` of src/simple-dnsd/config/config.cpp. The text of the
-- file is an argument, `none` where it cannot be opened.
use simple_dnsd.Base.{
  ℕ, ◌%◌, ◌^◌, Bool, true, false, ◌||◌, Option, none, some, List, [], ◌∷◌, ◌++◌, ◌==◌,
  if◌then◌else◌, Bytes, codes, str_eq, is_empty,
}
use simple_dnsd.Outcome.{Outcome, ok, thrown}
use simple_dnsd.Text.{trim, to_lower, split, parse_bool}
use simple_dnsd.Text.Number.{stoi, stoul, wrap_int}
use simple_dnsd.Zone.Lexer.{lines}
use simple_dnsd.Config.{DnsConfig}

-- The text before the first such byte, and the text behind it.
unfoldable pub cut_at : ℕ → Bytes → Option (Bytes × Bytes)
cut_at sep [] = none
cut_at sep (c ∷ s) =
    let rest = cut_at sep s in
    if c == sep
    then some ([], s)
    else elim rest [ none ↦ none | some (front, back) ↦ some (c ∷ front, back) ]

-- `line.substr(0, line.find('#'))`
unfoldable pub drop_comment : Bytes → Bytes
unfolding cut_at
drop_comment line = elim (cut_at b'#' line) [ none ↦ line | some (front, back) ↦ front ]

-- `static_cast<port_t>(std::stoi(value))`
unfoldable pub port_of : Bytes → Outcome ℕ
unfolding stoi
port_of value = elim (stoi 10 value) [ ok v ↦ ok (wrap_int 16 v) | thrown ↦ thrown ]

-- `static_cast<std::uint32_t>(std::stoul(value))`
unfoldable pub u32_of : Bytes → Outcome ℕ
unfolding stoul
u32_of value = elim (stoul value) [ ok v ↦ ok (v % 2 ^ 32) | thrown ↦ thrown ]

-- A number written to a field, where there is one.
abbrev pub with_number : Outcome ℕ → (ℕ → DnsConfig) → Outcome DnsConfig
with_number (ok v) write = ok (write v)
with_number thrown write = thrown

-- The settings whose value is a number, in the chain of the source behind those that are not: the
-- keys are all different, so the order of the tests makes no difference.
unfoldable pub set_number : DnsConfig → Bytes → Bytes → Outcome DnsConfig
unfolding port_of u32_of
set_number c key value =
    if str_eq key (codes "dns_port") || str_eq key (codes "port")
    then with_number (port_of value) (λ v. record c { dns_port = v })
    else if str_eq key (codes "api_port")
    then with_number (port_of value) (λ v. record c { api_port = v })
    else if str_eq key (codes "cache_ttl")
    then with_number (u32_of value) (λ v. record c { cache_ttl = v })
    else if str_eq key (codes "cache_size")
    then with_number (u32_of value) (λ v. record c { cache_size = v })
    else if str_eq key (codes "rrl_rate")
    then with_number (u32_of value) (λ v. record c { rrl_rate = v })
    else if str_eq key (codes "max_tcp_sessions")
    then with_number (u32_of value) (λ v. record c { max_tcp_sessions = v })
    else if str_eq key (codes "idle_timeout")
    then with_number (u32_of value) (λ v. record c { idle_timeout = v })
    else if str_eq key (codes "max_packet_size")
    then with_number (u32_of value) (λ v. record c { max_packet_size = v })
    else if str_eq key (codes "worker_threads")
    then with_number (u32_of value) (λ v. record c { worker_threads = v })
    else if str_eq key (codes "edns_bufsize")
    then with_number (u32_of value) (λ v. record c { edns_bufsize = v })
    else ok c

-- A key that the program does not know changes nothing.
unfoldable pub set_key : DnsConfig → Bytes → Bytes → Outcome DnsConfig
unfolding set_number parse_bool
set_key c key value =
    if str_eq key (codes "listen_address")
    then ok (record c { listen_address = value })
    else if str_eq key (codes "launch") || str_eq key (codes "backend")
    then ok (record c { launch = value })
    else if str_eq key (codes "sqlite_file")
    then ok (record c { sqlite_file = value })
    else if str_eq key (codes "postgres_dsn")
    then ok (record c { postgres_dsn = value })
    else if str_eq key (codes "mysql_dsn")
    then ok (record c { mysql_dsn = value })
    else if str_eq key (codes "bind_config") || str_eq key (codes "named_conf")
    then ok (record c { bind_config = value })
    else if str_eq key (codes "schema_dir")
    then ok (record c { schema_dir = value })
    else if str_eq key (codes "export_dir")
    then ok (record c { export_dir = value })
    else if str_eq key (codes "export_named_conf")
    then ok (record c { export_named_conf = value })
    else if str_eq key (codes "continuous_export")
    then ok (record c { continuous_export = parse_bool value })
    else if str_eq key (codes "log_file")
    then ok (record c { log_file = value })
    else if str_eq key (codes "log_level")
    then ok (record c { log_level = value })
    else if str_eq key (codes "api_listen")
    then ok (record c { api_listen = value })
    else if str_eq key (codes "api_key")
    then ok (record c { api_key = value })
    else if str_eq key (codes "enable_api")
    then ok (record c { enable_api = parse_bool value })
    else if str_eq key (codes "foreground")
    then ok (record c { foreground = parse_bool value })
    else if str_eq key (codes "service_user")
    then ok (record c { service_user = value })
    else if str_eq key (codes "allow_axfr")
    then ok (record c { allow_axfr = c.allow_axfr ++ value ∷ [] })
    else if str_eq key (codes "also_notify")
    then ok (record c { also_notify = c.also_notify ++ value ∷ [] })
    else if str_eq key (codes "tsig_key_name")
    then ok (record c { tsig_key_name = value })
    else if str_eq key (codes "tsig_key_secret")
    then ok (record c { tsig_key_secret = value })
    else set_number c key value

-- One line of the file; a line with no equals sign is passed over.
unfoldable pub load_line : DnsConfig → Bytes → Outcome DnsConfig
unfolding set_key cut_at drop_comment trim
load_line c raw = elim (cut_at b'=' (trim (drop_comment raw))) [
  | none ↦ ok c
  | some (key, value) ↦ set_key c (trim key) (trim value)
]

-- The loop, with the configuration as it is when a line ends it by an exception.
unfoldable pub load_lines : DnsConfig → List Bytes → Outcome Bool × DnsConfig
unfolding load_line
load_lines c [] = (ok true, c)
load_lines c (line ∷ rest) = elim (load_line c line) [
  | thrown ↦ (thrown, c)
  | ok c' ↦ load_lines c' rest
]

unfoldable pub load_from_file : DnsConfig → Option Bytes → Outcome Bool × DnsConfig
unfolding load_lines lines
load_from_file c none = (ok false, c)
load_from_file c (some text) = load_lines c (lines text)

-- The parts of `launch` that are not empty, trimmed and in lower case.
kinds_of : List Bytes → List Bytes
unfolding to_lower trim
kinds_of [] = []
kinds_of (p ∷ parts) =
    let kind = to_lower (trim p) in
    let rest = kinds_of parts in if is_empty kind then rest else kind ∷ rest

unfoldable pub launch_backends : DnsConfig → List Bytes
unfolding kinds_of split
launch_backends c = elim (kinds_of (split c.launch b',')) [
  | [] ↦ codes "memory" ∷ []
  | kind ∷ kinds ↦ kind ∷ kinds
]
