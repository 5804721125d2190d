-- ===== src/Examples/Data.antt =====
-- A small zone, example.com, with a delegation at sub.example.com, as the in-memory backend keeps it.
use simple_dnsd.Base.{ℕ, true, none, List, [], ◌∷◌, Bytes, codes}
use simple_dnsd.Name.{DnsName}
use simple_dnsd.Record.{ResourceRecord, new_record, Question, new_header, DnsMessage, new_message}
use simple_dnsd.Record.RrType
use simple_dnsd.Record.RrClass
use simple_dnsd.Inet.{Inet}
use simple_dnsd.Backend.{ZoneInfo, new_zone, Backend}
use simple_dnsd.Memory.{MemoryBackend, memory_backend}
use simple_dnsd.Memory.Transaction.{MemZone, MemoryTransaction}
use simple_dnsd.Config.{default_config}
use simple_dnsd.Engine.State.{QueryContext, Engine}
use simple_dnsd.Engine.Cache.{new_cache}

abbrev pub example_com : DnsName
example_com = record { labels = codes "example" ∷ codes "com" ∷ [] }

abbrev pub www : DnsName
www = record { labels = codes "www" ∷ codes "example" ∷ codes "com" ∷ [] }

abbrev pub sub : DnsName
sub = record { labels = codes "sub" ∷ codes "example" ∷ codes "com" ∷ [] }

abbrev pub host_sub : DnsName
host_sub = record { labels = codes "host" ∷ codes "sub" ∷ codes "example" ∷ codes "com" ∷ [] }

abbrev pub no_such : DnsName
no_such = record { labels = codes "nx" ∷ codes "example" ∷ codes "com" ∷ [] }

-- No address is ever read or printed here.
abbrev pub no_inet : Inet
no_inet = record { pton4 = λ s. none; pton6 = λ s. none; ntop4 = λ b. []; ntop6 = λ b. [] }

abbrev pub no_hmac : Bytes → Bytes → Bytes
no_hmac secret input = []

abbrev pub zone_info : ZoneInfo
zone_info = record new_zone { name = example_com }

abbrev pub soa : ResourceRecord
soa = record new_record {
  name = example_com;
  type = RrType.soa;
  content = codes "ns.example.com. root.example.com. 1 2 3 4 5";
}

abbrev pub ns : ResourceRecord
ns = record new_record { name = example_com; type = RrType.ns; content = codes "ns.elsewhere.net." }

abbrev pub address : ResourceRecord
address = record new_record {
  name = www;
  rdata = 192 ∷ 0 ∷ 2 ∷ 1 ∷ [];
  content = codes "192.0.2.1";
}

abbrev pub cut_ns : ResourceRecord
cut_ns = record new_record { name = sub; type = RrType.ns; content = codes "ns.elsewhere.net." }

abbrev pub zone_records : List ResourceRecord
zone_records = soa ∷ ns ∷ address ∷ cut_ns ∷ []

abbrev pub mem_zone : MemZone
mem_zone = record { info = zone_info; records = zone_records }

abbrev pub zones : MemoryBackend
zones = (codes "example.com.", mem_zone) ∷ []

abbrev pub backends : List MemoryBackend
backends = zones ∷ []

abbrev pub ops : Backend MemoryBackend MemoryTransaction
ops = memory_backend no_inet

abbrev pub ask : DnsName → ℕ → Question
ask name type = record { qname = name; qtype = type; qclass = RrClass.in_class }

abbrev pub query : DnsName → ℕ → DnsMessage
query name type = record new_message {
  header = record new_header { id = 77 };
  questions = ask name type ∷ [];
}

abbrev pub peer : QueryContext
peer = record { peer_host = codes "192.0.2.7"; peer_port = 5300; tcp = true; raw = [] }

abbrev pub open_zone : ZoneInfo
open_zone = record zone_info { allow_axfr = codes "192.0.2.7" ∷ [] }

abbrev pub engine : Engine MemoryBackend
engine = record {
  backends = ((codes "example.com.", record mem_zone { info = open_zone }) ∷ []) ∷ [];
  config = default_config;
  stats = record {
    queries = 0;
    answers = 0;
    nxdomain = 0;
    refused = 0;
    axfr = 0;
    updates = 0;
    cache_hits = 0;
    cache_misses = 0;
    truncated = 0;
    tcp_sessions = 0;
  };
  cache = new_cache 16;
  limiter = record { rate = 2; buckets = [] };
  tsig_keys = [];
  effects = [];
}

abbrev pub open_to_updates : MemZone
open_to_updates = record {
  info = record zone_info { allow_update = codes "192.0.2.7" ∷ [] };
  records = address ∷ [];
}
