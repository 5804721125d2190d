-- ===== src/Config.antt =====
-- `DnsConfig` of include/simple-dnsd/config/config.hpp.
pub mod Load
pub mod Validate
use simple_dnsd.Base.{ℕ, Bool, true, false, List, [], Bytes, codes}

pub record DnsConfig : Type 0 where
  pub listen_address : Bytes
  pub dns_port : ℕ
  pub launch : Bytes
  pub sqlite_file : Bytes
  pub postgres_dsn : Bytes
  pub mysql_dsn : Bytes
  pub bind_config : Bytes
  pub schema_dir : Bytes
  pub export_dir : Bytes
  pub export_named_conf : Bytes
  pub continuous_export : Bool
  pub log_file : Bytes
  pub log_level : Bytes
  pub api_listen : Bytes
  pub api_port : ℕ
  pub api_key : Bytes
  pub enable_api : Bool
  pub cache_ttl : ℕ
  pub cache_size : ℕ
  pub rrl_rate : ℕ
  pub max_tcp_sessions : ℕ
  pub idle_timeout : ℕ
  pub max_packet_size : ℕ
  pub worker_threads : ℕ
  pub edns_bufsize : ℕ
  pub foreground : Bool
  pub service_user : Bytes
  pub allow_axfr : List Bytes
  pub also_notify : List Bytes
  pub tsig_key_name : Bytes
  pub tsig_key_secret : Bytes

-- `kDnsDefaultPort` is 53 and `kDnsEdnsDefaultSize` 1232.
abbrev pub default_config : DnsConfig
default_config = record {
  listen_address = codes "0.0.0.0";
  dns_port = 53;
  launch = codes "memory";
  sqlite_file = [];
  postgres_dsn = [];
  mysql_dsn = [];
  bind_config = [];
  schema_dir = [];
  export_dir = [];
  export_named_conf = [];
  continuous_export = false;
  log_file = [];
  log_level = codes "info";
  api_listen = codes "127.0.0.1";
  api_port = 8081;
  api_key = [];
  enable_api = false;
  cache_ttl = 0;
  cache_size = 10000;
  rrl_rate = 0;
  max_tcp_sessions = 128;
  idle_timeout = 120;
  max_packet_size = 4096;
  worker_threads = 4;
  edns_bufsize = 1232;
  foreground = true;
  service_user = [];
  allow_axfr = [];
  also_notify = [];
  tsig_key_name = [];
  tsig_key_secret = [];
}
