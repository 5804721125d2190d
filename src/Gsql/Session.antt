-- ===== src/Gsql/Session.antt =====
-- `SqlSession` of include/simple-dnsd/backend/gsql.hpp and `GsqlTransaction` of
-- src/simple-dnsd/backend/gsql.cpp. A session of a database is a value that its calls change.
pub mod Atomic
use simple_dnsd.Base.{ℕ, Bool, true, false, List, [], ◌∷◌, ◌++◌, Bytes, codes, if◌then◌else◌}
use simple_dnsd.Outcome.{Outcome, ok, thrown}
use simple_dnsd.Name.{DnsName}
use simple_dnsd.Record.{ResourceRecord, new_record}
use simple_dnsd.Record.RrType
use simple_dnsd.Inet.{Inet}
use simple_dnsd.Serial
use simple_dnsd.Backend.{ZoneInfo, ℤ}
use simple_dnsd.Gsql.Statement.{
  q, in_zone, insert_record, delete_named, delete_typed, delete_records, delete_domain,
}

abbrev pub Row : Type 0
Row = List Bytes

-- The flag that `query` returns is never read, so it gives the rows alone.
pub record SqlSession (C : Type 0) : Type 0 where
  pub exec : C → Bytes → Bool × C
  pub query : C → Bytes → List Row
  pub begin : C → Bool × C
  pub commit : C → Bool × C
  pub rollback : C → C
  pub last_insert_id : C → Outcome ℤ

pub record GsqlTransaction (C : Type 0) : Type 0 where
  pub zone : ZoneInfo
  pub session : C
  pub done : Bool

abbrev pub update_content : Bytes → Bytes → Bytes
unfolding q
update_content content id =
    codes "UPDATE records SET content=" ++ (q content ++ (codes " WHERE id=" ++ id))

module _ {C : Type 0} (sql : SqlSession C) where
  -- The constructor
  unfoldable pub open_transaction : ZoneInfo → C → GsqlTransaction C
  open_transaction zone c = record { zone = zone; session = (sql.begin c).1; done = false }

  -- The destructor
  unfoldable pub close : GsqlTransaction C → C
  close tx = if tx.done then tx.session else sql.rollback tx.session

  abbrev pub run : GsqlTransaction C → Bytes → Bool × GsqlTransaction C
  run tx statement =
      let (done, c) = sql.exec tx.session statement in (done, record tx { session = c })

  unfoldable pub add_record : Inet → GsqlTransaction C → ResourceRecord → Bool × GsqlTransaction C
  unfolding insert_record
  add_record net tx rr = run tx (insert_record net tx.zone rr)

  -- The loop ends at the first record that cannot be added.
  unfoldable pub add_records :
      Inet → GsqlTransaction C → List ResourceRecord → Bool × GsqlTransaction C
  unfolding add_record
  add_records net tx [] = (true, tx)
  add_records net tx (rr ∷ rrs) =
      let (added, tx') = add_record net tx rr in
      elim added [ true ↦ add_records net tx' rrs | false ↦ (false, tx') ]

  unfoldable pub delete_rrset : GsqlTransaction C → DnsName → ℕ → Bool × GsqlTransaction C
  unfolding delete_typed
  delete_rrset tx name type = run tx (delete_typed tx.zone name type)

  unfoldable pub replace_rrset :
      Inet → GsqlTransaction C → DnsName → ℕ → List ResourceRecord → Bool × GsqlTransaction C
  unfolding delete_rrset add_records
  replace_rrset net tx name type rrs =
      let (deleted, tx') = delete_rrset tx name type in
      elim deleted [ true ↦ add_records net tx' rrs | false ↦ (false, tx') ]

  unfoldable pub delete_name : GsqlTransaction C → DnsName → Bool × GsqlTransaction C
  unfolding delete_named
  delete_name tx name = run tx (delete_named tx.zone name)

  unfoldable pub delete_zone : GsqlTransaction C → Bool × GsqlTransaction C
  unfolding delete_records delete_domain
  delete_zone tx = run (run tx (delete_records tx.zone)).1 (delete_domain tx.zone)

  -- The loop over the SOA rows, each an id and a content; a shorter row is passed over.
  unfoldable pub set_serials :
      Inet → GsqlTransaction C → ℕ → List Row → Outcome Bool × GsqlTransaction C
  unfolding Serial.set_soa_serial q
  set_serials net tx serial [] = (ok true, tx)
  set_serials net tx serial ((id ∷ content ∷ more) ∷ rows) =
      let (set, soa) =
        Serial.set_soa_serial net (record new_record { type = RrType.soa; content = content })
          serial in
      elim set [
        | thrown ↦ (thrown, tx)
        | ok b ↦ set_serials net (run tx (update_content soa.content id)).1 serial rows
      ]
  set_serials net tx serial (_ ∷ rows) = set_serials net tx serial rows

  unfoldable pub set_soa_serial : Inet → GsqlTransaction C → ℕ → Outcome Bool × GsqlTransaction C
  unfolding set_serials in_zone
  set_soa_serial net tx serial = set_serials net tx serial (
      sql.query tx.session
        (codes "SELECT id,content" ++ (in_zone tx.zone ++ codes " AND type='SOA'")))

  unfoldable pub commit : GsqlTransaction C → Bool × GsqlTransaction C
  commit tx =
      let (done, c) = sql.commit tx.session in (done, record tx { session = c; done = done })

  unfoldable pub rollback : GsqlTransaction C → GsqlTransaction C
  rollback tx = record tx { session = sql.rollback tx.session; done = true }
