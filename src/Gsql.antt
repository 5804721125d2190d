-- ===== src/Gsql.antt =====
-- The SQL backend, src/simple-dnsd/backend/gsql.cpp. A session is a parameter: what `connect` of the
-- factory returns is an argument of each call, `none` where there is no connection.
pub mod Statement
pub mod Quote
pub mod Session
pub mod Walk
pub mod Schema
pub mod Drivers
use simple_dnsd.Base.{
  ℕ, zero, suc, ◌+◌, ◌%◌, ◌^◌, Bool, true, false, not, ◌&&◌, ◌||◌, Option, none, some, List, [],
  ◌∷◌, ◌++◌, ◌==◌, if◌then◌else◌, leb, ltb, Bytes, codes, length, get_or, is_empty, str_eq,
}
use simple_dnsd.Outcome.{Outcome, ok, thrown, ◌>>=◌}
use simple_dnsd.Text.{to_lower, trim}
use simple_dnsd.Text.Number.{strtol, stoi, wrap_int, decimal}
use simple_dnsd.Config.Load.{u32_of}
use simple_dnsd.Name.{DnsName, equals, parse, to_lower_string}
use simple_dnsd.Record.{ResourceRecord, new_record}
use simple_dnsd.Record.RrType
use simple_dnsd.Record.RrType.{rr_type_to_string, rr_type_from_string}
use simple_dnsd.Inet.{Inet}
use simple_dnsd.Rdata.{content_to_rdata}
use simple_dnsd.Serial.{with_text}
use simple_dnsd.Backend.{ZoneKind, native, master, slave, ZoneInfo, new_zone, ℤ, pos, negsuc}
use simple_dnsd.Gsql.Statement.{
  q, q_name, signed, in_zone, domain_columns, record_columns, delete_records, delete_domain,
}
use simple_dnsd.Gsql.Session.{Row, SqlSession, GsqlTransaction, open_transaction}

-- `std::stoll`
unfoldable pub stoll : Bytes → Outcome ℤ
unfolding strtol
stoll s = elim (strtol 10 s) [
  | none ↦ thrown
  | some (false, m) ↦ if ltb m (2 ^ 63) then ok (pos m) else thrown
  | some (true, zero) ↦ ok (pos 0)
  | some (true, suc m) ↦ if ltb m (2 ^ 63) then ok (negsuc m) else thrown
]

abbrev col : Row → ℕ → Bytes
col row i = get_or row i []

abbrev kind_of : Bytes → ZoneKind
unfolding to_lower
kind_of t =
    if str_eq (to_lower t) (codes "slave") || str_eq (to_lower t) (codes "secondary")
    then slave
    else if str_eq (to_lower t) (codes "master")
    then master
    else native

unfoldable pub row_to_zone : Row → Outcome ZoneInfo
unfolding stoll u32_of parse to_lower
row_to_zone row =
    let n = length row in
    do
      id ←
          if leb 1 n
          then stoll (if is_empty (col row 0) then codes "0" else col row 0)
          else ok new_zone.id
      serial ← if leb 6 n && not (is_empty (col row 5)) then u32_of (col row 5) else ok 0
      ok (record new_zone {
        id = id;
        name = if leb 2 n then parse (col row 1) else new_zone.name;
        master = col row 2;
        kind = if leb 5 n then kind_of (col row 4) else native;
        notified_serial = serial;
        account = col row 6;
      })

abbrev type_of : Option ℕ → ℕ
type_of none = new_record.type
type_of (some type) = type

-- The columns are content, ttl, prio, type, domain_id, disabled, name and auth. What
-- `contentToRdata` returns is not looked at.
unfoldable pub row_to_rr : Inet → Row → Outcome ResourceRecord
unfolding u32_of stoi parse to_lower rr_type_from_string content_to_rdata
row_to_rr net row = if ltb (length row) 7 then ok new_record else (do
  ttl ← if is_empty (col row 1) then ok new_record.ttl else u32_of (col row 1)
  prio ←
      if is_empty (col row 2)
      then ok new_record.prio
      else (stoi 10 (col row 2) >>= λ v. ok (wrap_int 16 v))
  filled ← content_to_rdata net (record new_record {
    content = col row 0;
    ttl = ttl;
    prio = prio;
    type = type_of (rr_type_from_string (col row 3));
    disabled = str_eq (col row 5) (codes "1") || str_eq (to_lower (col row 5)) (codes "t");
    name = parse (col row 6);
    auth =
        if leb 8 (length row)
        then not (str_eq (col row 7) (codes "0")) && not (str_eq (to_lower (col row 7)) (codes "f"))
        else new_record.auth;
  })
  ok filled.1)

module _ {C : Type 0} (sql : SqlSession C) where
  -- The statements of the schema: each is sent once its semicolon is there.
  run_schema : C → Bytes → Bytes → C
  unfolding trim
  run_schema c stmt [] = c
  run_schema c stmt (ch ∷ schema) =
      let stmt' = stmt ++ ch ∷ [] in
      let sent = if ltb 1 (length (trim stmt')) then (sql.exec c (trim stmt')).1 else c in
      if ch == b';' then run_schema sent [] schema else run_schema c stmt' schema

  unfoldable pub initialize : Option C → Bytes → Bool × Option C
  unfolding run_schema
  initialize none schema = (false, none)
  initialize (some c) schema = (true, some (run_schema c [] schema))

  -- The rows of `domains` for a name.
  unfoldable pub zones_named : C → DnsName → List Row
  unfolding q_name
  zones_named c cur = sql.query c (domain_columns ++ (codes " WHERE name=" ++ q_name cur))

  -- The loop of `findZone`, from the name to the root.
  unfoldable pub find_zone_from : C → List Bytes → Outcome (Option ZoneInfo)
  unfolding zones_named row_to_zone
  find_zone_from c [] = elim (zones_named c (record { labels = [] })) [
    | [] ↦ ok none
    | row ∷ rows ↦ (row_to_zone row >>= λ z. ok (some z))
  ]
  find_zone_from c (l ∷ labels) = elim (zones_named c (record { labels = l ∷ labels })) [
    | [] ↦ find_zone_from c labels
    | row ∷ rows ↦ (row_to_zone row >>= λ z. ok (some z))
  ]

  unfoldable pub find_zone : Option C → DnsName → Outcome (Option ZoneInfo)
  unfolding find_zone_from
  find_zone none qname = ok none
  find_zone (some c) qname = find_zone_from c qname.labels

  zones_of : List Row → Outcome (List ZoneInfo)
  unfolding row_to_zone
  zones_of [] = ok []
  zones_of (row ∷ rows) = do z ← row_to_zone row; zones ← zones_of rows; ok (z ∷ zones)

  unfoldable pub list_zones : Option C → Outcome (List ZoneInfo)
  unfolding zones_of
  list_zones none = ok []
  list_zones (some c) = zones_of (sql.query c domain_columns)

  unfoldable pub name_exists : Option C → ZoneInfo → DnsName → Bool
  unfolding in_zone q_name q to_lower_string
  name_exists none zone qname = false
  name_exists (some c) zone qname = not (
      is_empty (
        sql.query c (
          codes "SELECT id"
          ++ (in_zone zone
              ++ (codes " AND (name="
                  ++ (q_name qname
                      ++ (codes " OR name LIKE "
                          ++ (q (codes "%." ++ to_lower_string false qname)
                              ++ codes ") LIMIT 1"))))))))

  unfoldable pub begin : Option C → ZoneInfo → Option (GsqlTransaction C)
  unfolding open_transaction
  begin none zone = none
  begin (some c) zone = some (open_transaction sql zone c)

  unfoldable pub delete_zone : Option C → ZoneInfo → Bool × Option C
  unfolding delete_records delete_domain
  delete_zone none zone = (false, none)
  delete_zone (some c) zone =
      let (done, c') = sql.exec (sql.exec c (delete_records zone)).1 (delete_domain zone) in
      (done, some c')

module _ {C : Type 0} (sql : SqlSession C) (net : Inet) where
  records_of : List Row → Outcome (List ResourceRecord)
  unfolding row_to_rr
  records_of [] = ok []
  records_of (row ∷ rows) = do rr ← row_to_rr net row; rrs ← records_of rows; ok (rr ∷ rrs)

  unfoldable pub lookup : Option C → ZoneInfo → DnsName → ℕ → Outcome (List ResourceRecord)
  unfolding records_of in_zone q_name q rr_type_to_string
  lookup none zone qname qtype = ok []
  lookup (some c) zone qname qtype =
      let base =
        record_columns
        ++ (in_zone zone ++ (codes " AND name=" ++ (q_name qname ++ codes " AND disabled=0"))) in
      records_of (
        sql.query c (
          if qtype == RrType.any
          then base
          else base ++ (codes " AND type=" ++ q (rr_type_to_string qtype))))

  unfoldable pub list_zone : Option C → ZoneInfo → Outcome (List ResourceRecord)
  unfolding records_of in_zone
  list_zone none zone = ok []
  list_zone (some c) zone = records_of (sql.query c (record_columns ++ in_zone zone))

  -- The loop of `findDelegation`. Each lookup connects anew.
  unfoldable pub cut_from : Option C → ZoneInfo → List Bytes → Outcome (Option DnsName)
  unfolding lookup equals
  cut_from db zone [] = ok none
  cut_from db zone (l ∷ labels) =
      let cur : DnsName = record { labels = l ∷ labels } in
      elim (equals cur zone.name) [
        | true ↦ ok none
        | false ↦ elim (lookup db zone cur RrType.ns) [
          | thrown ↦ thrown
          | ok [] ↦ cut_from db zone labels
          | ok (rr ∷ rrs) ↦ ok (some cur)
        ]
      ]

  unfoldable pub find_delegation : Option C → ZoneInfo → DnsName → Outcome (Option DnsName)
  unfolding cut_from
  find_delegation db zone qname = cut_from db zone qname.labels

  abbrev kind_name : ZoneKind → Bytes
  kind_name native = codes "NATIVE"
  kind_name master = codes "MASTER"
  kind_name slave = codes "SLAVE"

  abbrev insert_domain : ZoneInfo → Bytes
  unfolding q_name q
  insert_domain zone =
      codes "INSERT INTO domains(name,type,master,account) VALUES("
      ++ (q_name zone.name
          ++ (codes ","
              ++ (q (kind_name zone.kind)
                  ++ (codes ","
                      ++ (q zone.master ++ (codes "," ++ (q zone.account ++ codes ")")))))))

  abbrev insert_soa : ℤ → ZoneInfo → ResourceRecord → Bytes
  unfolding q_name q signed decimal
  insert_soa id zone soa =
      codes "INSERT INTO records(domain_id,name,type,content,ttl,prio,disabled,auth) VALUES("
      ++ (signed id
          ++ (codes ","
              ++ (q_name zone.name
                  ++ (codes ",'SOA',"
                      ++ (q (with_text net soa).content
                          ++ (codes "," ++ (decimal soa.ttl ++ codes ",0,0,1)")))))))

  unfoldable pub create_zone : Option C → ZoneInfo → ResourceRecord → Outcome Bool × Option C
  unfolding q_name q signed decimal
  create_zone none zone soa = (ok false, none)
  create_zone (some c) zone soa =
      let (made, c') = sql.exec c (insert_domain zone) in
      if not made then (ok false, some c') else elim (sql.last_insert_id c') [
        | thrown ↦ (thrown, some c')
        | ok id ↦ (let (done, c'') = sql.exec c' (insert_soa id zone soa) in (ok done, some c''))
      ]
