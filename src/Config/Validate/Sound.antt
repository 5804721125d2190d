-- ===== src/Config/Validate/Sound.antt =====
-- When a configuration is accepted, and what that promises for the start of the backends.
use simple_dnsd.Base.{
  ap, ◌∙◌, ◌≡◌, refl, Bool, true, false, not, ◌&&◌, List, [], ◌∷◌, ltb, Bytes, is_empty, all_of,
  arith,
}
use simple_dnsd.Config.{DnsConfig}
use simple_dnsd.Config.Load.{launch_backends}
use simple_dnsd.Config.Validate.{
  unknown_backend, sqlite_file_missing, postgres_dsn_missing, mysql_dsn_missing,
  bind_config_missing, small_packets, ConfigError, listen_address_missing, bad_log_level,
  api_key_missing, is_log_level, is_sqlite, is_postgres, is_mysql, is_bind, is_known, complain_if,
  check_backend, check_backends, validate_detailed, validate,
}

-- The kind of backend is known, and the setting that it needs is there.
abbrev pub is_ready : DnsConfig → Bytes → Bool
is_ready c b =
    is_known b
    && (not (is_sqlite b && is_empty c.sqlite_file)
        && (not (is_postgres b && is_empty c.postgres_dsn)
            && (not (is_mysql b && is_empty c.mysql_dsn)
                && not (is_bind b && is_empty c.bind_config))))

is_empty-complain_if :
    (b : Bool) (e : ConfigError) (errors : List ConfigError)
    → is_empty (complain_if b e errors) ≡ (is_empty errors && not b)
is_empty-complain_if true e [] = refl
is_empty-complain_if true e (x ∷ errors) = refl
is_empty-complain_if false e [] = refl
is_empty-complain_if false e (x ∷ errors) = refl

-- Five complaints in a row.
five :
    (k s p m b : Bool) (e1 e2 e3 e4 e5 : ConfigError) (errors : List ConfigError)
    → is_empty (
        complain_if b e5
          (complain_if m e4 (complain_if p e3 (complain_if s e2 (complain_if (not k) e1 errors)))))
      ≡ (is_empty errors && (k && (not s && (not p && (not m && not b)))))
five k s p m b e1 e2 e3 e4 e5 errors =
    let f1 = complain_if (not k) e1 errors in
    let f2 = complain_if s e2 f1 in
    let f3 = complain_if p e3 f2 in
    let f4 = complain_if m e4 f3 in
    ground (
      arith,
      is_empty-complain_if (not k) e1 errors,
      is_empty-complain_if s e2 f1,
      is_empty-complain_if p e3 f2,
      is_empty-complain_if m e4 f3,
      is_empty-complain_if b e5 f4,
    )

check_backend-empty :
    (c : DnsConfig) (errors : List ConfigError) (b : Bytes)
    → is_empty (check_backend c errors b) ≡ (is_empty errors && is_ready c b)
unfolding check_backend
check_backend-empty c errors b =
    five (is_known b) (is_sqlite b && is_empty c.sqlite_file)
      (is_postgres b && is_empty c.postgres_dsn) (is_mysql b && is_empty c.mysql_dsn)
      (is_bind b && is_empty c.bind_config) (unknown_backend b) sqlite_file_missing
      postgres_dsn_missing mysql_dsn_missing bind_config_missing errors

and_assoc : (a b c : Bool) → ((a && b) && c) ≡ (a && (b && c))
and_assoc true b c = refl
and_assoc false b c = refl

check_backends-empty :
    (c : DnsConfig) (errors : List ConfigError) (kinds : List Bytes)
    → is_empty (check_backends c errors kinds) ≡ (is_empty errors && all_of (is_ready c) kinds)
unfolding check_backends
check_backends-empty c errors [] = and_true (is_empty errors)
  where
    and_true : (a : Bool) → a ≡ (a && true)
    and_true true = refl
    and_true false = refl
check_backends-empty c errors (b ∷ kinds) =
    check_backends-empty c (check_backend c errors b) kinds
    ∙ ap (λ (t : Bool). t && all_of (is_ready c) kinds) (check_backend-empty c errors b)
    ∙ and_assoc (is_empty errors) (is_ready c b) (all_of (is_ready c) kinds)

-- A configuration is accepted exactly where a listening address is set, the log level is known, every
-- backend to launch is known with the setting it needs, an enabled interface has a key, and packets
-- may have 512 bytes.
pub validate_lem :
    (c : DnsConfig)
    → validate c ≡ (
        not (is_empty c.listen_address)
        && (is_log_level c.log_level
            && (all_of (is_ready c) (launch_backends c)
                && (not (c.enable_api && is_empty c.api_key) && not (ltb c.max_packet_size 512)))))
unfolding validate validate_detailed
validate_lem c =
    let e1 = complain_if (is_empty c.listen_address) listen_address_missing [] in
    let e2 = complain_if (not (is_log_level c.log_level)) bad_log_level e1 in
    let e3 = check_backends c e2 (launch_backends c) in
    let e4 = complain_if (c.enable_api && is_empty c.api_key) api_key_missing e3 in
    all_five (is_empty c.listen_address) (is_log_level c.log_level)
      (all_of (is_ready c) (launch_backends c)) (c.enable_api && is_empty c.api_key)
      (ltb c.max_packet_size 512)
      (is_empty-complain_if (is_empty c.listen_address) listen_address_missing [])
      (is_empty-complain_if (not (is_log_level c.log_level)) bad_log_level e1)
      (check_backends-empty c e2 (launch_backends c))
      (is_empty-complain_if (c.enable_api && is_empty c.api_key) api_key_missing e3)
      (is_empty-complain_if (ltb c.max_packet_size 512) small_packets e4)
  where
    all_five :
        (l g r a p : Bool) {x1 x2 x3 x4 x5 : Bool}
        → x1 ≡ (true && not l)
        → x2 ≡ (x1 && not (not g))
        → x3 ≡ (x2 && r)
        → x4 ≡ (x3 && not a)
        → x5 ≡ (x4 && not p)
        → x5 ≡ (not l && (g && (r && (not a && not p))))
    all_five l g r a p h1 h2 h3 h4 h5 = ground arith
