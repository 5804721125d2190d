-- ===== src/Gsql/Drivers.antt =====
-- The sessions of src/simple-dnsd/backend/sqlite.cpp, mysql.cpp and postgres.cpp, each over its client
-- library, which is a parameter with a connection `D` that its calls change. The log and the release of
-- results are left out. A text is handed over as a C string.
use simple_dnsd.Base.{
  ℕ, ◌-◌, ◌%◌, ◌^◌, Bool, true, false, not, ◌||◌, Option, none, some, List, [], ◌∷◌, map,
  if◌then◌else◌, ltb, Bytes, codes, str_eq, is_empty,
}
use simple_dnsd.Outcome.{Outcome, ok, thrown, ◌>>=◌}
use simple_dnsd.Inet.{c_str}
use simple_dnsd.Text.{to_lower, trim, split}
use simple_dnsd.Text.Number.{stoul}
use simple_dnsd.Config.Load.{cut_at}
use simple_dnsd.Backend.{ℤ, pos, negsuc}
use simple_dnsd.Gsql.{stoll}
use simple_dnsd.Gsql.Schema.{sqlite_schema, mysql_schema, pgsql_schema}
use simple_dnsd.Gsql.Session.{Row, SqlSession}

-- A column that is NULL is read as an empty text.
abbrev text_or_empty : Option Bytes → Bytes
text_or_empty none = []
text_or_empty (some text) = c_str text

unfoldable pub texts : List (List (Option Bytes)) → List Row
unfolding c_str
texts rows = map (map text_or_empty) rows

-- `sqlite3_open`, `sqlite3_exec`, the rows that a prepared statement steps through, and
-- `sqlite3_last_insert_rowid`.
pub record SqliteLibrary (D : Type 0) : Type 0 where
  pub open_file : Bytes → Option D
  pub exec : D → Bytes → Bool × D
  pub rows : D → Bytes → Option (List (List (Option Bytes)))
  pub last_insert_rowid : D → ℤ

module _ {D : Type 0} (lib : SqliteLibrary D) where
  unfoldable pub sqlite_exec : D → Bytes → Bool × D
  unfolding c_str
  sqlite_exec db sql = lib.exec db (c_str sql)

  unfoldable pub sqlite_query : D → Bytes → List Row
  unfolding c_str texts
  sqlite_query db sql = elim (lib.rows db (c_str sql)) [ none ↦ [] | some rows ↦ texts rows ]

  -- `SqliteSession`
  unfoldable pub sqlite_session : SqlSession D
  unfolding sqlite_exec sqlite_query
  sqlite_session = record {
    exec = sqlite_exec;
    query = sqlite_query;
    begin = λ db. sqlite_exec db (codes "BEGIN IMMEDIATE");
    commit = λ db. sqlite_exec db (codes "COMMIT");
    rollback = λ db. (sqlite_exec db (codes "ROLLBACK")).1;
    last_insert_id = λ db. ok (lib.last_insert_rowid db);
  }

  -- `SqliteFactory::connect`
  unfoldable pub sqlite_connect : Bytes → Option D
  unfolding c_str
  sqlite_connect path = elim (lib.open_file (c_str path)) [
    | none ↦ none
    | some db ↦ some (lib.exec db (codes "PRAGMA foreign_keys=ON; PRAGMA journal_mode=WAL;")).1
  ]

  -- `makeSqliteBackend`: what `connect` gives, and the schema.
  unfoldable pub make_sqlite_backend : Bytes → Bytes → Option D × Bytes
  unfolding sqlite_connect
  make_sqlite_backend path schema =
      (sqlite_connect path, if is_empty schema then sqlite_schema else schema)

-- `mysql_init` with `mysql_real_connect`, `mysql_query`, the rows of `mysql_store_result`, `none` for
-- a null pointer, and `mysql_insert_id`.
pub record MysqlLibrary (D : Type 0) : Type 0 where
  pub connect : Bytes → Bytes → Bytes → Bytes → ℕ → Option D
  pub send : D → Bytes → Bool × D
  pub store_result : D → Option (List (List (Option Bytes)))
  pub insert_id : D → ℕ

-- What the text of a MySQL connection sets.
pub record MysqlSettings : Type 0 where
  pub host : Bytes
  pub user : Bytes
  pub pass : Bytes
  pub db : Bytes
  pub port : ℕ

abbrev pub default_settings : MysqlSettings
default_settings = record {
  host = codes "127.0.0.1";
  user = codes "root";
  pass = [];
  db = codes "simplednsd";
  port = 3306;
}

unfoldable pub set_key : MysqlSettings → Bytes → Bytes → Outcome MysqlSettings
unfolding stoul
set_key s k v =
    if str_eq k (codes "host")
    then ok (record s { host = v })
    else if str_eq k (codes "user")
    then ok (record s { user = v })
    else if str_eq k (codes "password") || str_eq k (codes "pass")
    then ok (record s { pass = v })
    else if str_eq k (codes "database") || str_eq k (codes "dbname") || str_eq k (codes "db")
    then ok (record s { db = v })
    else if str_eq k (codes "port")
    then (stoul v >>= λ n. ok (record s { port = n % 2 ^ 32 }))
    else ok s

-- The loop over the parts; a part with no equals sign is passed over.
unfoldable pub set_parts : MysqlSettings → List Bytes → Outcome MysqlSettings
unfolding cut_at set_key to_lower trim
set_parts s [] = ok s
set_parts s (part ∷ parts) = elim (cut_at b'=' part) [
  | none ↦ set_parts s parts
  | some (k, v) ↦ (set_key s (to_lower (trim k)) (trim v) >>= λ s'. set_parts s' parts)
]

unfoldable pub mysql_settings : Bytes → Outcome MysqlSettings
unfolding set_parts split
mysql_settings dsn = set_parts default_settings (split dsn b';')

-- A `my_ulonglong` as a `std::int64_t`.
abbrev signed64 : ℕ → ℤ
signed64 n = if ltb n (2 ^ 63) then pos n else negsuc (2 ^ 64 - 1 - n)

module _ {D : Type 0} (lib : MysqlLibrary D) where
  unfoldable pub mysql_exec : D → Bytes → Bool × D
  unfolding c_str
  mysql_exec conn sql = lib.send conn (c_str sql)

  unfoldable pub mysql_query : D → Bytes → List Row
  unfolding c_str texts
  mysql_query conn sql =
      let (sent, conn') = lib.send conn (c_str sql) in
      if not sent then [] else elim (lib.store_result conn') [ none ↦ [] | some rows ↦ texts rows ]

  -- `MysqlSession`
  unfoldable pub mysql_session : SqlSession D
  unfolding mysql_exec mysql_query
  mysql_session = record {
    exec = mysql_exec;
    query = mysql_query;
    begin = λ conn. mysql_exec conn (codes "START TRANSACTION");
    commit = λ conn. mysql_exec conn (codes "COMMIT");
    rollback = λ conn. (mysql_exec conn (codes "ROLLBACK")).1;
    last_insert_id = λ conn. ok (signed64 (lib.insert_id conn));
  }

  -- `MysqlFactory::connect`
  unfoldable pub mysql_connect : Bytes → Outcome (Option D)
  unfolding mysql_settings c_str
  mysql_connect dsn = elim (mysql_settings dsn) [
    | thrown ↦ thrown
    | ok s ↦ ok (lib.connect (c_str s.host) (c_str s.user) (c_str s.pass) (c_str s.db) s.port)
  ]

  -- `makeMysqlBackend`
  unfoldable pub make_mysql_backend : Bytes → Outcome (Option D) × Bytes
  unfolding mysql_connect
  make_mysql_backend dsn = (mysql_connect dsn, mysql_schema)

-- `ExecStatusType`
pub data Status : Type 0 where
  command_ok tuples_ok other_status : Status

-- `PQconnectdb` with `PQstatus`, and `PQexec` with the status and the values of its result.
pub record PgLibrary (D : Type 0) : Type 0 where
  pub connect : Bytes → Option D
  pub exec : D → Bytes → Status × List (List Bytes) × D

abbrev succeeds : Status → Bool
succeeds command_ok = true
succeeds tuples_ok = true
succeeds other_status = false

module _ {D : Type 0} (lib : PgLibrary D) where
  unfoldable pub pg_exec : D → Bytes → Bool × D
  unfolding c_str
  pg_exec conn sql =
      let (status, values, conn') = lib.exec conn (c_str sql) in (succeeds status, conn')

  unfoldable pub pg_query : D → Bytes → List Row
  unfolding c_str
  pg_query conn sql = elim (lib.exec conn (c_str sql)).0 [
    | tuples_ok ↦ map (map c_str) (lib.exec conn (c_str sql)).1
    | command_ok ↦ []
    | other_status ↦ []
  ]

  first_value : List Row → Outcome ℤ
  unfolding stoll
  first_value [] = ok (pos 0)
  first_value ([] ∷ rows) = ok (pos 0)
  first_value ((value ∷ values) ∷ rows) = stoll value

  -- `PgSession`
  unfoldable pub pg_session : SqlSession D
  unfolding pg_exec pg_query first_value
  pg_session = record {
    exec = pg_exec;
    query = pg_query;
    begin = λ conn. pg_exec conn (codes "BEGIN");
    commit = λ conn. pg_exec conn (codes "COMMIT");
    rollback = λ conn. (pg_exec conn (codes "ROLLBACK")).1;
    last_insert_id = λ conn. first_value (pg_query conn (codes "SELECT lastval()"));
  }

  -- `PgFactory::connect`
  unfoldable pub pg_connect : Bytes → Option D
  unfolding c_str
  pg_connect dsn = lib.connect (c_str dsn)

  -- `makePostgresBackend`
  unfoldable pub make_postgres_backend : Bytes → Option D × Bytes
  unfolding pg_connect
  make_postgres_backend dsn = (pg_connect dsn, pgsql_schema)
