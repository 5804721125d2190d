-- ===== src/Server/Secondary/Replace.antt =====
-- What a transfer leaves in a zone of the memory backend.
use simple_dnsd.Base.{
  ◌≡◌, refl, sym, ap, ◌∙◌, Bool, true, false, not, ◌||◌, List, [], ◌∷◌, ◌++◌, any_of, keep_if,
  all_of, if◌then◌else◌, Bytes,
}
use mathlib.Core.List.{append_assoc, append-nil}
use simple_dnsd.Outcome.{ok}
use simple_dnsd.Name.Equality.{equals_refl}
use simple_dnsd.Record.{ResourceRecord}
use simple_dnsd.Record.RrType
use simple_dnsd.Inet.{Inet}
use simple_dnsd.Memory.{memory_backend}
use simple_dnsd.Memory.Transaction.{
  MemZone, Del, MemoryTransaction, new_transaction, deleted_by, add_record, delete_name,
  commit_zone,
}
use simple_dnsd.Memory.Commit.{survives, is_filled, commit_zone-records}
use simple_dnsd.Server.Secondary.{but_last, delete_names, add_all, replace_all}

abbrev whole_name : ResourceRecord → Del
whole_name rr = record { name = rr.name; type = RrType.any; all = true }

abbrev whole_names : List ResourceRecord → List Del
whole_names [] = []
whole_names (rr ∷ rrs) = whole_name rr ∷ whole_names rrs

module _ (net : Inet) where
  delete_names-deletes :
      (tx : MemoryTransaction) (rrs : List ResourceRecord)
      → delete_names (memory_backend net) tx rrs
        ≡ record tx { deletes = tx.deletes ++ whole_names rrs }
  unfolding delete_names delete_name
  delete_names-deletes tx [] =
      ap (λ (t : List Del). record tx { deletes = t }) (sym (append-nil tx.deletes))
  delete_names-deletes tx (rr ∷ rrs) =
      delete_names-deletes (record tx { deletes = tx.deletes ++ whole_name rr ∷ [] }) rrs
      ∙ ap (λ (t : List Del). record tx { deletes = t })
          (append_assoc tx.deletes (whole_name rr ∷ []) (whole_names rrs))

  pub add_all-pending :
      (tx : MemoryTransaction) (rrs : List ResourceRecord)
      → add_all (memory_backend net) tx rrs ≡ record tx { pending = tx.pending ++ rrs }
  unfolding add_all add_record
  add_all-pending tx [] =
      ap (λ (t : List ResourceRecord). record tx { pending = t }) (sym (append-nil tx.pending))
  add_all-pending tx (rr ∷ rrs) =
      add_all-pending (record tx { pending = tx.pending ++ rr ∷ [] }) rrs
      ∙ ap (λ (t : List ResourceRecord). record tx { pending = t })
          (append_assoc tx.pending (rr ∷ []) rrs)

or-true : (b : Bool) → (b || true) ≡ true
or-true true = refl
or-true false = refl

-- The deletion of its name removes a record.
whole_name-deletes : (rr : ResourceRecord) → deleted_by (whole_name rr) rr ≡ true
whole_name-deletes rr = rw (equals_refl rr.name) refl

-- One of the names of a list removes every record of it.
whole_names-deletes :
    (front : List ResourceRecord) (rr : ResourceRecord) (rrs : List ResourceRecord)
    → any_of (λ d. deleted_by d rr) (whole_names (front ++ rr ∷ rrs)) ≡ true
whole_names-deletes [] rr rrs =
    ap (λ (b : Bool). b || any_of (λ d. deleted_by d rr) (whole_names rrs)) (whole_name-deletes rr)
whole_names-deletes (f ∷ front) rr rrs =
    ap (λ (b : Bool). deleted_by (whole_name f) rr || b) (whole_names-deletes front rr rrs)
    ∙ or-true (deleted_by (whole_name f) rr)

none_survives :
    (front rrs : List ResourceRecord) → keep_if (survives (whole_names (front ++ rrs))) rrs ≡ []
none_survives front [] = refl
none_survives front (rr ∷ rrs) =
    let ds = whole_names (front ++ rr ∷ rrs) in
    ap (λ (b : Bool). if not b then rr ∷ keep_if (survives ds) rrs else keep_if (survives ds) rrs)
      (whole_names-deletes front rr rrs)
    ∙ (ap (λ (l : List ResourceRecord). keep_if (survives (whole_names l)) rrs)
          (sym (append_assoc front (rr ∷ []) rrs))
        ∙ none_survives (front ++ rr ∷ []) rrs)

-- What a transfer writes to a zone of the memory backend, where the transferred records have their
-- data: the zone ends with exactly the transferred records, in their order and without the last one,
-- and no record of before stays.
pub replace_all-records :
    (net : Inet) (z : MemZone) (key : Bytes) (rrs : List ResourceRecord)
    → all_of is_filled (but_last rrs) ≡ true
    → commit_zone net (replace_all (memory_backend net) (new_transaction key) z.records rrs) z
      ≡ (ok true, record z { records = but_last rrs })
unfolding replace_all
replace_all-records net z key rrs h =
    let tx : MemoryTransaction = record (new_transaction key) {
      deletes = whole_names z.records;
      pending = but_last rrs;
    } in
    ap (λ (t : MemoryTransaction). commit_zone net t z)
      (ap (λ (t : MemoryTransaction). add_all (memory_backend net) t (but_last rrs))
          (delete_names-deletes net (new_transaction key) z.records)
        ∙ add_all-pending net (record (new_transaction key) { deletes = whole_names z.records })
            (but_last rrs))
    ∙ (commit_zone-records net tx z refl refl h
        ∙ ap (λ (l : List ResourceRecord). (ok true, record z { records = l ++ but_last rrs }))
            (none_survives [] z.records))
