-- ===== src/Memory/Transaction.antt =====
-- `MemoryTransaction` of src/simple-dnsd/backend/memory.cpp.
use simple_dnsd.Base.{
  ℕ, Bool, true, false, not, ◌&&◌, ◌||◌, none, some, List, [], ◌∷◌, ◌++◌, ◌==◌, if◌then◌else◌,
  Bytes, keep_if, is_empty,
}
use simple_dnsd.Outcome.{Outcome, ok, thrown}
use simple_dnsd.Name.{DnsName, equals}
use simple_dnsd.StringMap
use simple_dnsd.StringMap.{StringMap}
use simple_dnsd.Record.{ResourceRecord}
use simple_dnsd.Record.RrType
use simple_dnsd.Inet.{Inet}
use simple_dnsd.Rdata.{content_to_rdata}
use simple_dnsd.Serial
use simple_dnsd.Backend.{ZoneInfo, Transaction}

pub record MemZone : Type 0 where
  pub info : ZoneInfo
  pub records : List ResourceRecord

abbrev pub Zones : Type 0
Zones = StringMap MemZone

-- `Del`: a whole name, or one type at a name.
pub record Del : Type 0 where
  pub name : DnsName
  pub type : ℕ
  pub all : Bool

-- The source's pointer to the zone is the zone's key here. The field `adds_` is never read.
pub record MemoryTransaction : Type 0 where
  pub zone : Bytes
  pub pending : List ResourceRecord
  pub deletes : List Del
  pub drop_zone : Bool
  pub has_serial : Bool
  pub serial : ℕ

abbrev pub new_transaction : Bytes → MemoryTransaction
new_transaction zone = record {
  zone = zone;
  pending = [];
  deletes = [];
  drop_zone = false;
  has_serial = false;
  serial = 0;
}

unfoldable pub add_record : MemoryTransaction → ResourceRecord → Bool × MemoryTransaction
add_record tx rr = (true, record tx { pending = tx.pending ++ rr ∷ [] })

add_records : MemoryTransaction → List ResourceRecord → MemoryTransaction
unfolding add_record
add_records tx [] = tx
add_records tx (rr ∷ rrs) = add_records (add_record tx rr).1 rrs

unfoldable pub delete_rrset : MemoryTransaction → DnsName → ℕ → Bool × MemoryTransaction
delete_rrset tx name type = (
  true,
  record tx { deletes = tx.deletes ++ (record { name = name; type = type; all = false }) ∷ [] },
)

unfoldable pub replace_rrset :
    MemoryTransaction → DnsName → ℕ → List ResourceRecord → Bool × MemoryTransaction
unfolding add_records delete_rrset
replace_rrset tx name type rrs = (true, add_records (delete_rrset tx name type).1 rrs)

unfoldable pub delete_name : MemoryTransaction → DnsName → Bool × MemoryTransaction
delete_name tx name = (
  true,
  record tx {
    deletes = tx.deletes ++ (record { name = name; type = RrType.any; all = true }) ∷ [];
  },
)

unfoldable pub delete_zone : MemoryTransaction → Bool × MemoryTransaction
delete_zone tx = (true, record tx { drop_zone = true })

unfoldable pub set_soa_serial : MemoryTransaction → ℕ → Outcome Bool × MemoryTransaction
set_soa_serial tx serial = (ok true, record tx { serial = serial; has_serial = true })

unfoldable pub rollback : MemoryTransaction → MemoryTransaction
rollback tx = record tx { pending = []; deletes = [] }

-- The records that a deletion removes.
abbrev pub deleted_by : Del → ResourceRecord → Bool
deleted_by d rr = if not (equals rr.name d.name) then false else d.all || rr.type == d.type

unfoldable pub apply_deletes : List Del → List ResourceRecord → List ResourceRecord
unfolding equals
apply_deletes [] records = records
apply_deletes (d ∷ deletes) records =
    apply_deletes deletes (keep_if (λ rr. not (deleted_by d rr)) records)

-- The records of a zone with the outcome of the loop that worked on them: where a call threw, what
-- was done before it stays.
abbrev pub Worked : Type 0
Worked = Outcome Bool × List ResourceRecord

module _ (net : Inet) where
  -- A pending record with its data filled in.
  unfoldable pub filled : ResourceRecord → Outcome (Bool × ResourceRecord)
  unfolding content_to_rdata
  filled rr = if is_empty rr.rdata then content_to_rdata net rr else ok (true, rr)

  unfoldable pub append_pending : List ResourceRecord → List ResourceRecord → Worked
  unfolding filled
  append_pending [] records = (ok true, records)
  append_pending (rr ∷ pending) records = elim (filled rr) [
    | thrown ↦ (thrown, records)
    | ok (done, rr') ↦ append_pending pending (records ++ rr' ∷ [])
  ]

  abbrev pub is_apex_soa : DnsName → ResourceRecord → Bool
  is_apex_soa apex rr = rr.type == RrType.soa && equals rr.name apex

  -- The loop over the records that sets the serial at the zone's own name; the flag that
  -- `setSoaSerial` returns is not read.
  unfoldable pub apply_serial : DnsName → ℕ → List ResourceRecord → Worked
  unfolding Serial.set_soa_serial equals
  apply_serial apex serial [] = (ok true, [])
  apply_serial apex serial (rr ∷ records) =
      let (done, rest) = apply_serial apex serial records in
      if is_apex_soa apex rr
      then (let (set, rr') = Serial.set_soa_serial net rr serial in
          elim set [ ok b ↦ (done, rr' ∷ rest) | thrown ↦ (thrown, rr' ∷ records) ])
      else (done, rr ∷ rest)

  -- `commit`, on the zone that the transaction was begun for.
  unfoldable pub commit_zone : MemoryTransaction → MemZone → Outcome Bool × MemZone
  unfolding apply_deletes append_pending apply_serial
  commit_zone tx z =
      if tx.drop_zone
      then (ok true, record z { records = [] })
      else (let (added, records) = append_pending tx.pending (apply_deletes tx.deletes z.records) in
          elim added [
            | thrown ↦ (thrown, record z { records = records })
            | ok b ↦
                if tx.has_serial
                then (let (done, records') = apply_serial z.info.name tx.serial records in
                    (done, record z { records = records' }))
                else (ok true, record z { records = records })
          ])

  -- The source writes through a pointer into the map. Where the zone is gone since, that is
  -- undefined there; the model refuses, and no theorem speaks of it.
  unfoldable pub commit : MemoryTransaction → Zones → Outcome Bool × Zones
  unfolding commit_zone StringMap.lookup StringMap.insert
  commit tx zones = elim (StringMap.lookup tx.zone zones) [
    | none ↦ (ok false, zones)
    | some z ↦ (let (done, z') = commit_zone tx z in (done, StringMap.insert tx.zone z' zones))
  ]

  abbrev pub operations : Transaction Zones MemoryTransaction
  operations = record {
    add_record = add_record;
    replace_rrset = replace_rrset;
    delete_rrset = delete_rrset;
    delete_name = delete_name;
    drop_zone = delete_zone;
    set_soa_serial = set_soa_serial;
    commit = commit;
    rollback = rollback;
  }
