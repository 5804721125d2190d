-- ===== src/Gsql/Session/Atomic.antt =====
-- A transaction of a database is all or nothing.
use simple_dnsd.Base.{ℕ, ◌≡◌, Bool, true, false, List, [], ◌∷◌, Bytes}
use simple_dnsd.Outcome.{Outcome}
use simple_dnsd.Name.{DnsName}
use simple_dnsd.Record.{ResourceRecord}
use simple_dnsd.Record.RrType
use simple_dnsd.Inet.{Inet}
use simple_dnsd.Serial
use simple_dnsd.Backend.{ZoneInfo}
use simple_dnsd.Gsql.Statement.{
  q, insert_record, delete_typed, delete_named, delete_records, delete_domain,
}
use simple_dnsd.Gsql.Session.{
  update_content, SqlSession, GsqlTransaction, add_record, delete_rrset, replace_rrset, delete_name,
  delete_zone, set_soa_serial, commit,
}

-- The statements that change a zone's data: those that a transaction sends between its BEGIN and its
-- COMMIT or ROLLBACK.
pub data DataStatement : Type 0 where
  inserts : ZoneInfo → ResourceRecord → DataStatement
  deletes_typed : ZoneInfo → DnsName → ℕ → DataStatement
  deletes_named : ZoneInfo → DnsName → DataStatement
  deletes_records : ZoneInfo → DataStatement
  deletes_domain : ZoneInfo → DataStatement
  updates_content : Bytes → Bytes → DataStatement

unfoldable pub text_of : Inet → DataStatement → Bytes
unfolding insert_record delete_typed delete_named delete_records delete_domain q
text_of net (inserts zone rr) = insert_record net zone rr
text_of net (deletes_typed zone name type) = delete_typed zone name type
text_of net (deletes_named zone name) = delete_named zone name
text_of net (deletes_records zone) = delete_records zone
text_of net (deletes_domain zone) = delete_domain zone
text_of net (updates_content content id) = update_content content id

-- A database with transactions: `committed` is what other sessions see, `working` what this one does, and
-- `is_inside` says that a transaction is open. Statements that change data, those that fail too, are seen
-- by no other session while it is open, and leave it open; a commit publishes what was done or fails and
-- publishes nothing, and a rollback publishes nothing.
-- A database that ends a transaction by itself where one of its statements fails, as MySQL does in a
-- deadlock, is not one.
pub record IsTransactional {C D : Type 0} (net : Inet) (sql : SqlSession C)
    (committed working : C → D) (is_inside : C → Bool) : Type 0 where
  pub hides :
      (c : C) (statement : DataStatement)
      → is_inside c ≡ true
      → committed (sql.exec c (text_of net statement)).1 ≡ committed c
  pub stays :
      (c : C) (statement : DataStatement)
      → is_inside c ≡ true
      → is_inside (sql.exec c (text_of net statement)).1 ≡ true
  pub begins : (c : C) → committed (sql.begin c).1 ≡ committed c
  pub publishes :
      (c : C)
      → is_inside c ≡ true
      → (sql.commit c).0 ≡ true
      → committed (sql.commit c).1 ≡ working c
  pub fails :
      (c : C)
      → is_inside c ≡ true
      → (sql.commit c).0 ≡ false
      → committed (sql.commit c).1 ≡ committed c
  pub undoes : (c : C) → committed (sql.rollback c) ≡ committed c

-- A call of one of the operations of a transaction.
pub data Change : Type 0 where
  adds : ResourceRecord → Change
  replaces : DnsName → ℕ → List ResourceRecord → Change
  deletes_rrset : DnsName → ℕ → Change
  deletes_name : DnsName → Change
  deletes_zone : Change
  sets_serial : ℕ → Change

module _ {C : Type 0} (sql : SqlSession C) (net : Inet) where
  unfoldable pub stage : GsqlTransaction C → Change → GsqlTransaction C
  unfolding add_record replace_rrset delete_rrset delete_name delete_zone set_soa_serial
  stage tx (adds rr) = (add_record sql net tx rr).1
  stage tx (replaces name type rrs) = (replace_rrset sql net tx name type rrs).1
  stage tx (deletes_rrset name type) = (delete_rrset sql tx name type).1
  stage tx (deletes_name name) = (delete_name sql tx name).1
  stage tx deletes_zone = (delete_zone sql tx).1
  stage tx (sets_serial serial) = (set_soa_serial sql net tx serial).1

  unfoldable pub stage_all : GsqlTransaction C → List Change → GsqlTransaction C
  unfolding stage
  stage_all tx [] = tx
  stage_all tx (change ∷ changes) = stage_all (stage tx change) changes

module _ {C D : Type 0} {sql : SqlSession C} {committed working : C → D} {is_inside : C → Bool}
    {net : Inet} (db : IsTransactional net sql committed working is_inside) (base : D) where
  -- The transaction is open and nothing of it is seen.
  abbrev IsHidden : GsqlTransaction C → Type 0
  IsHidden tx = (is_inside tx.session ≡ true) × (committed tx.session ≡ base) × (tx.done ≡ false)
