-- ===== src/Config/Validate.antt =====
-- `validateDetailed` of src/simple-dnsd/config/config.cpp, and `parseLogLevel` of
-- src/simple-dnsd/utils/logger.cpp.
pub mod Sound
use simple_dnsd.Base.{
  ℕ, Bool, true, false, not, ◌&&◌, ◌||◌, List, [], ◌∷◌, ◌++◌, ltb, if◌then◌else◌, Bytes, codes,
  str_eq, is_empty,
}
use simple_dnsd.Text.{to_lower}
use simple_dnsd.Config.{DnsConfig}
use simple_dnsd.Config.Load.{launch_backends}

-- `parseLogLevel` without the level that it sets.
unfoldable pub is_log_level : Bytes → Bool
unfolding to_lower
is_log_level name =
    let lower = to_lower name in
    str_eq lower (codes "debug")
    || str_eq lower (codes "info")
    || str_eq lower (codes "warning")
    || str_eq lower (codes "warn")
    || str_eq lower (codes "error")
    || str_eq lower (codes "fatal")

-- The texts of `errors`.
pub data ConfigError : Type 0 where
  listen_address_missing bad_log_level : ConfigError
  unknown_backend : Bytes → ConfigError
  sqlite_file_missing postgres_dsn_missing mysql_dsn_missing bind_config_missing : ConfigError
  api_key_missing small_packets : ConfigError

abbrev pub is_sqlite : Bytes → Bool
is_sqlite b = str_eq b (codes "sqlite") || str_eq b (codes "gsqlite3")

abbrev pub is_postgres : Bytes → Bool
is_postgres b = str_eq b (codes "postgres") || str_eq b (codes "pgsql") || str_eq b (codes "gpgsql")

abbrev pub is_mysql : Bytes → Bool
is_mysql b = str_eq b (codes "mysql") || str_eq b (codes "mariadb") || str_eq b (codes "gmysql")

abbrev pub is_bind : Bytes → Bool
is_bind b = str_eq b (codes "bind") || str_eq b (codes "bindfile")

abbrev pub is_known : Bytes → Bool
is_known b = str_eq b (codes "memory") || is_bind b || is_sqlite b || is_postgres b || is_mysql b

-- `if (test) errors.push_back(e);`
abbrev pub complain_if : Bool → ConfigError → List ConfigError → List ConfigError
complain_if true e errors = errors ++ e ∷ []
complain_if false e errors = errors

-- The body of the loop over the backends.
unfoldable pub check_backend : DnsConfig → List ConfigError → Bytes → List ConfigError
check_backend c errors b =
    let e1 = complain_if (not (is_known b)) (unknown_backend b) errors in
    let e2 = complain_if (is_sqlite b && is_empty c.sqlite_file) sqlite_file_missing e1 in
    let e3 = complain_if (is_postgres b && is_empty c.postgres_dsn) postgres_dsn_missing e2 in
    let e4 = complain_if (is_mysql b && is_empty c.mysql_dsn) mysql_dsn_missing e3 in
    complain_if (is_bind b && is_empty c.bind_config) bind_config_missing e4

unfoldable pub check_backends : DnsConfig → List ConfigError → List Bytes → List ConfigError
unfolding check_backend
check_backends c errors [] = errors
check_backends c errors (b ∷ kinds) = check_backends c (check_backend c errors b) kinds

-- `errors`, which are none exactly where the source returns `true`.
unfoldable pub validate_detailed : DnsConfig → List ConfigError
unfolding check_backends is_log_level launch_backends
validate_detailed c =
    let e1 = complain_if (is_empty c.listen_address) listen_address_missing [] in
    let e2 = complain_if (not (is_log_level c.log_level)) bad_log_level e1 in
    let e3 = check_backends c e2 (launch_backends c) in
    let e4 = complain_if (c.enable_api && is_empty c.api_key) api_key_missing e3 in
    complain_if (ltb c.max_packet_size 512) small_packets e4

unfoldable pub validate : DnsConfig → Bool
unfolding validate_detailed
validate c = is_empty (validate_detailed c)
