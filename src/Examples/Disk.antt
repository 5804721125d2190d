-- ===== src/Examples/Disk.antt =====
-- Zones kept by BIND's files and by a database, and Base64.
use simple_dnsd.Gsql.Session.Atomic.{Change, deletes_name, deletes_zone}
use simple_dnsd.Gsql.Drivers.{SqliteLibrary, sqlite_session}
use simple_dnsd.Outcome.{ok}
use simple_dnsd.Base.{
  ℕ, not, ◌||◌, ◌==◌, Bool, ◌+◌, ◌≡◌, refl, true, false, some, none, List, [], ◌∷◌, ◌++◌, Bytes,
  codes, if◌then◌else◌, str_eq,
}
use simple_dnsd.Text.{lower_byte}
use simple_dnsd.Record.{ResourceRecord}
use simple_dnsd.Record.RrType
use simple_dnsd.Files.{Files}
use simple_dnsd.Memory
use simple_dnsd.Memory.{memory_backend}
use simple_dnsd.Memory.Transaction.{Del, new_transaction, commit_zone}
use simple_dnsd.Server.Secondary.{add_all}
use simple_dnsd.BindFile.{
  BindZone, BindZones, BindBackend, bind_backend, get, begin, commit, find_zone, list_zones,
  list_zone, name_exists, find_delegation, lookup,
}
use simple_dnsd.BindFile.Edit.{BindTransaction}
use simple_dnsd.BindFile.Agreement.{mem_of, view, reads-view}
use simple_dnsd.BindFile.Commit.{delete_all, commit-same}
use simple_dnsd.Zone.NamedConf.{NamedZone, next_zone}
use simple_dnsd.Zone.NamedConf.Masters.{next_zone-master}
use simple_dnsd.Gsql.Statement.{q, domain_columns}
use simple_dnsd.Gsql.Quote.{read_literal, read_literal-q}
use simple_dnsd.Gsql.Session.{SqlSession}
use simple_dnsd.Gsql.Session
use simple_dnsd.Gsql.Walk.{Nearest, find_zone-Nearest}
use simple_dnsd.Gsql
use simple_dnsd.Tsig.Base64.{encode_base64, decode_base64}
use simple_dnsd.Tsig.Base64.RoundTrip.{decode_base64-encode_base64}
use simple_dnsd.Examples.Data.{www, no_inet, zone_info, zone_records, address}

abbrev bind_zone : BindZone
bind_zone = record { info = zone_info; file = codes "example.com.zone"; records = zone_records }

abbrev bind_zones : BindZones
bind_zones = (codes "example.com.", bind_zone) ∷ []

abbrev no_files : Files Unit
no_files = record {
  read = λ d path. none;
  write = λ d path text. (some true, d);
  make_dir = λ d path. d;
}

abbrev bind : BindBackend Unit
bind = record { named_conf = codes "named.conf"; zones = bind_zones; disk = tt }

reads-view_example :
    (find_zone bind_zones www ≡ Memory.find_zone (view bind_zones) www)
    × (list_zones bind_zones ≡ Memory.list_zones (view bind_zones))
    × (list_zone bind_zones zone_info ≡ Memory.list_zone (view bind_zones) zone_info)
    × (name_exists bind_zones zone_info www ≡ Memory.name_exists (view bind_zones) zone_info www)
    × (find_delegation bind_zones zone_info www
        ≡ Memory.find_delegation (view bind_zones) zone_info www)
    × (lookup bind_zones zone_info www 1 ≡ Memory.lookup (view bind_zones) zone_info www 1)
unfolding get lower_byte
reads-view_example = reads-view bind_zones zone_info www 1 refl

abbrev dropped : List Del
dropped = (record { name = www; type = RrType.a; all = false }) ∷ []

abbrev added : List ResourceRecord
added = record address { rdata = 192 ∷ 0 ∷ 2 ∷ 9 ∷ [] } ∷ []

commit-same_example :
    (tx : BindTransaction) × (begin bind_zones zone_info ≡ some tx)
    × (get
          (commit no_files no_inet
            (add_all
              (bind_backend no_files no_inet 3)
              (delete_all (bind_backend no_files no_inet 3) tx dropped)
              added)
            bind).1.zones
          zone_info
        ≡ some (record bind_zone {
          records =
              (commit_zone no_inet
                (add_all
                  (memory_backend no_inet)
                  (delete_all (memory_backend no_inet) (new_transaction tx.key) dropped)
                  added)
                (mem_of bind_zone)).1.records;
        }))
unfolding get lower_byte
commit-same_example =
    commit-same no_files no_inet 3 bind zone_info dropped added {z = bind_zone} refl refl

abbrev conf : Bytes
conf = codes "zone \"a\" { type slave; masters { 1.2.3.4; }; };"

next_zone-master_example :
    (nz : NamedZone) × (next_zone conf 0 ≡ some (nz, 42 + 1)) × (nz.info.master ≡ [])
unfolding simple_dnsd.Text.Find.place_of simple_dnsd.Text.to_lower lower_byte
    simple_dnsd.Text.Find.index_of
next_zone-master_example = next_zone-master conf 0 0 5 7 9 42 refl refl refl refl refl

read_literal-q_example :
    read_literal (q (codes "it's") ++ codes ")") ≡ some (codes "it's", codes ")")
read_literal-q_example = read_literal-q (codes "it's") (codes ")") refl

-- A database with one zone, example.com.
abbrev one_domain : SqlSession Unit
one_domain = record {
  exec = λ c sql. (true, c);
  query = λ c sql.
      if str_eq sql (domain_columns ++ codes " WHERE name='example.com'")
      then (codes "1" ∷ codes "example.com" ∷ []) ∷ []
      else [];
  begin = λ c. (true, c);
  commit = λ c. (true, c);
  rollback = λ c. c;
  last_insert_id = λ c. ok zone_info.id;
}

find_zone-Nearest_example :
    Nearest one_domain tt www.labels (Gsql.find_zone one_domain (some tt) www)
find_zone-Nearest_example = find_zone-Nearest one_domain tt www

decode_base64-encode_base64_example :
    decode_base64 (encode_base64 (1 ∷ 200 ∷ 255 ∷ 7 ∷ [])) ≡ (true, 1 ∷ 200 ∷ 255 ∷ 7 ∷ [])
decode_base64-encode_base64_example = decode_base64-encode_base64 (1 ∷ 200 ∷ 255 ∷ 7 ∷ []) refl

-- A database that keeps the statements it was sent: those that are committed, all of them, and whether a
-- transaction is open.
abbrev Journal : Type 0
Journal = List Bytes × List Bytes × Bool

abbrev first_is : ℕ → Bytes → Bool
first_is k [] = false
first_is k (c ∷ text) = c == k

abbrev ends_or_begins : Bytes → Bool
ends_or_begins text = first_is b'B' text || (first_is b'C' text || first_is b'R' text)

abbrev note : Journal → Bytes → Journal
note c text = (if c.2 then c.0 else c.1 ++ text ∷ [], c.1 ++ text ∷ [], c.2)

abbrev send_text : Journal → Bytes → Bool × Journal
send_text c text =
    if not (ends_or_begins text)
    then (true, note c text)
    else if first_is b'B' text
    then (true, (c.0, c.0, true))
    else if first_is b'C' text
    then (true, (c.1, c.1, false))
    else (true, (c.0, c.0, false))

abbrev library : SqliteLibrary Journal
library = record {
  open_file = λ path. none;
  exec = send_text;
  rows = λ c text. some [];
  last_insert_rowid = λ c. zone_info.id;
}

abbrev journal : SqlSession Journal
unfolding sqlite_session
journal = sqlite_session library

abbrev filled_journal : Journal
filled_journal = (codes "CREATE" ∷ [], [], false)

abbrev changes : List Change
changes = deletes_name www ∷ deletes_zone ∷ []
