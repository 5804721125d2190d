-- ===== src/BindFile/Commit.antt =====
-- What a commit of the BIND backend leaves, and that it is what the memory backend leaves.
use simple_dnsd.Base.{
  ℕ, ◌≡◌, refl, sym, ap, ◌∙◌, Bool, true, false, not, ◌&&◌, Option, none, some, List, [], ◌∷◌, ◌++◌,
  keep_if, all_of, arith, if◌then◌else◌, Bytes, str_eq_refl, ◌==◌, ◌||◌,
}
use mathlib.Core.List.{append_assoc, append-nil}
use simple_dnsd.Outcome.{Outcome, ok}
use simple_dnsd.Name.{DnsName, equals, to_lower_string}
use simple_dnsd.StringMap
use simple_dnsd.StringMap.Laws.{lookup-insert}
use simple_dnsd.Record.RrType
use simple_dnsd.Record.{ResourceRecord}
use simple_dnsd.Inet.{Inet}
use simple_dnsd.Files.{Files}
use simple_dnsd.Backend.{Backend, ZoneInfo}
use simple_dnsd.Memory.{memory_backend}
use simple_dnsd.Memory.Transaction.{
  Del, MemoryTransaction, new_transaction, commit_zone, deleted_by,
}
use simple_dnsd.Memory
use simple_dnsd.Memory.Commit.{
  survives, is_filled, keep_if-keep_if, keep_if-ext, keep_if-true, commit_zone-records,
}
use simple_dnsd.Server.Secondary.{add_all}
use simple_dnsd.Server.Secondary.Replace.{add_all-pending}
use simple_dnsd.BindFile.{BindZone, BindBackend, bind_backend, get, begin, commit, persist_locked}
use simple_dnsd.BindFile.Edit.{BindTransaction, add_record, delete_rrset, delete_name}
use simple_dnsd.BindFile.Agreement.{mem_of}

-- The operation of a transaction that a deletion stands for.
module _ {S T : Type 0} (ops : Backend S T) where
  abbrev pub delete_one : T → Del → T
  delete_one tx d =
      if d.all
      then (ops.transaction.delete_name tx d.name).1
      else (ops.transaction.delete_rrset tx d.name d.type).1

  unfoldable pub delete_all : T → List Del → T
  delete_all tx [] = tx
  delete_all tx (d ∷ ds) = delete_all (delete_one tx d) ds

module _ {D : Type 0} (files : Files D) (net : Inet) (depth : ℕ) where
  delete_one-records :
      (tx : BindTransaction) (name : DnsName) (type : ℕ) (all : Bool)
      → let d : Del = record { name = name; type = type; all = all } in
        delete_one (bind_backend files net depth) tx d
        ≡ record tx { records = keep_if (λ rr. not (deleted_by d rr)) tx.records }
  unfolding delete_name delete_rrset
  delete_one-records tx name type true =
      ap (λ (t : List ResourceRecord). record tx { records = t })
        (keep_if-ext (λ rr. not (equals rr.name name))
          (λ rr. not (if not (equals rr.name name) then false else true || rr.type == type))
          (λ rr. ground arith) tx.records)
  delete_one-records tx name type false =
      ap (λ (t : List ResourceRecord). record tx { records = t })
        (keep_if-ext (λ rr. not (equals rr.name name && rr.type == type))
          (λ rr. not (if not (equals rr.name name) then false else false || rr.type == type))
          (λ rr. ground arith) tx.records)

  delete_all-records :
      (tx : BindTransaction) (ds : List Del)
      → delete_all (bind_backend files net depth) tx ds
        ≡ record tx { records = keep_if (survives ds) tx.records }
  unfolding delete_all
  delete_all-records tx [] =
      ap (λ (t : List ResourceRecord). record tx { records = t }) (sym (keep_if-true tx.records))
  delete_all-records tx (d ∷ ds) =
      ap (λ (t : BindTransaction). delete_all (bind_backend files net depth) t ds)
        (delete_one-records tx d.name d.type d.all)
      ∙ delete_all-records
          (record tx { records = keep_if (λ rr. not (deleted_by d rr)) tx.records }) ds
      ∙ ap (λ (t : List ResourceRecord). record tx { records = t })
          (keep_if-keep_if (survives ds) (λ rr. not (deleted_by d rr)) tx.records
            ∙ keep_if-ext (λ rr. not (deleted_by d rr) && survives ds rr) (survives (d ∷ ds))
                (λ rr. ground arith) tx.records)

  add_all-records :
      (tx : BindTransaction) (rrs : List ResourceRecord)
      → add_all (bind_backend files net depth) tx rrs ≡ record tx { records = tx.records ++ rrs }
  unfolding add_all add_record
  add_all-records tx [] =
      ap (λ (t : List ResourceRecord). record tx { records = t }) (sym (append-nil tx.records))
  add_all-records tx (rr ∷ rrs) =
      add_all-records (record tx { records = tx.records ++ rr ∷ [] }) rrs
      ∙ ap (λ (t : List ResourceRecord). record tx { records = t })
          (append_assoc tx.records (rr ∷ []) rrs)

-- A deletion as the memory backend notes it.
abbrev noted : Del → Del
noted d =
    if d.all
    then record { name = d.name; type = RrType.any; all = true }
    else record { name = d.name; type = d.type; all = false }

abbrev all_noted : List Del → List Del
all_noted [] = []
all_noted (d ∷ ds) = noted d ∷ all_noted ds

survives-noted : (ds : List Del) (rr : ResourceRecord) → survives (all_noted ds) rr ≡ survives ds rr
survives-noted [] rr = refl
survives-noted (d ∷ ds) rr = ground (arith, survives-noted ds rr)

module _ (net : Inet) where
  delete_one-noted :
      (tx : MemoryTransaction) (name : DnsName) (type : ℕ) (all : Bool)
      → let d : Del = record { name = name; type = type; all = all } in
        delete_one (memory_backend net) tx d ≡ record tx { deletes = tx.deletes ++ noted d ∷ [] }
  unfolding Memory.Transaction.delete_name Memory.Transaction.delete_rrset
  delete_one-noted tx name type true = refl
  delete_one-noted tx name type false = refl

  delete_all-noted :
      (tx : MemoryTransaction) (ds : List Del)
      → delete_all (memory_backend net) tx ds ≡ record tx { deletes = tx.deletes ++ all_noted ds }
  unfolding delete_all
  delete_all-noted tx [] =
      ap (λ (t : List Del). record tx { deletes = t }) (sym (append-nil tx.deletes))
  delete_all-noted tx (d ∷ ds) =
      ap (λ (t : MemoryTransaction). delete_all (memory_backend net) t ds)
        (delete_one-noted tx d.name d.type d.all)
      ∙ delete_all-noted (record tx { deletes = tx.deletes ++ noted d ∷ [] }) ds
      ∙ ap (λ (t : List Del). record tx { deletes = t })
          (append_assoc tx.deletes (noted d ∷ []) (all_noted ds))

  mem_commit :
      (key : Bytes) (z : BindZone) (ds : List Del) (rrs : List ResourceRecord)
      → all_of is_filled rrs ≡ true
      → commit_zone net
          (add_all
            (memory_backend net)
            (delete_all (memory_backend net) (new_transaction key) ds)
            rrs)
          (mem_of z)
        ≡ (ok true, record { info = z.info; records = keep_if (survives ds) z.records ++ rrs })
  mem_commit key z ds rrs h =
      let tx : MemoryTransaction = record (new_transaction key) {
        deletes = all_noted ds;
        pending = rrs;
      } in
      ap (λ (t : MemoryTransaction). commit_zone net t (mem_of z))
        (ap (λ (t : MemoryTransaction). add_all (memory_backend net) t rrs)
            (delete_all-noted (new_transaction key) ds)
          ∙ add_all-pending net (record (new_transaction key) { deletes = all_noted ds }) rrs)
      ∙ (commit_zone-records net tx (mem_of z) refl refl h
          ∙ ap
              (λ (l : List ResourceRecord). (ok true, record { info = z.info; records = l ++ rrs }))
              (keep_if-ext (survives (all_noted ds)) (survives ds) (survives-noted ds) z.records))

module _ {D : Type 0} (files : Files D) (net : Inet) where
  commit-get :
      (b : BindBackend D) (zone : ZoneInfo) (z : BindZone) (records : List ResourceRecord)
      → get b.zones zone ≡ some z
      → get
          (commit files net
            (record { key = to_lower_string true zone.name; records = records })
            b).1.zones
          zone
        ≡ some (record z { records = records })
  unfolding commit get persist_locked
  commit-get b zone z records g =
      let key = to_lower_string true zone.name in
      let changed =
        λ (y : BindZone). StringMap.insert key (record y { records = records }) b.zones in
      ap
        (λ (o : Option BindZone).
          let done : Outcome Bool × BindBackend D = elim o [
            | none ↦ (ok false, b)
            | some y ↦ (ok true, persist_locked files net (record b { zones = changed y }))
          ] in
          StringMap.lookup key done.1.zones)
        g
      ∙ lookup-insert key key (record z { records = records }) b.zones
      ∙ ap
          (λ (t : Bool).
            if t then some (record z { records = records }) else StringMap.lookup key b.zones)
          (str_eq_refl key)

-- Deletions and then additions, committed: both backends leave the same records in the zone. The
-- added records have their data. The BIND backend works on a copy of the records as it goes, the
-- memory backend notes what is asked for and does it in the commit.
pub commit-same :
    {D : Type 0} (files : Files D) (net : Inet) (depth : ℕ) (b : BindBackend D) (zone : ZoneInfo)
    (ds : List Del) (rrs : List ResourceRecord) {z : BindZone}
    → get b.zones zone ≡ some z
    → all_of is_filled rrs ≡ true
    → let staged = λ (t : BindTransaction).
      add_all (bind_backend files net depth) (delete_all (bind_backend files net depth) t ds) rrs in
      let noted_all = λ (key : Bytes).
        add_all
          (memory_backend net)
          (delete_all (memory_backend net) (new_transaction key) ds)
          rrs in
      (tx : BindTransaction) × (begin b.zones zone ≡ some tx)
      × (get (commit files net (staged tx) b).1.zones zone
          ≡ some (record z { records = (commit_zone net (noted_all tx.key) (mem_of z)).1.records }))
unfolding begin
commit-same files net depth b zone ds rrs {z} g h =
    let key = to_lower_string true zone.name in
    let tx : BindTransaction = record { key = key; records = z.records } in
    let kept = keep_if (survives ds) z.records in
    (
      tx,
      ap
          (λ (o : Option BindZone). elim o [
            | none ↦ none
            | some y ↦ some (record { key = key; records = y.records })
          ])
          g,
      ap (λ (t : BindTransaction). get (commit files net t b).1.zones zone)
            (ap (λ (t : BindTransaction). add_all (bind_backend files net depth) t rrs)
                (delete_all-records files net depth tx ds)
              ∙ add_all-records files net depth (record tx { records = kept }) rrs)
          ∙ commit-get files net b zone z (kept ++ rrs) g
          ∙ ap (λ (l : List ResourceRecord). some (record z { records = l }))
              (sym (ap (λ p. p.1.records) (mem_commit net key z ds rrs h))),
    )
