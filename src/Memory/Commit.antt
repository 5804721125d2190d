-- ===== src/Memory/Commit.antt =====
-- What a commit of `MemoryTransaction` leaves in the zone.
use simple_dnsd.Base.{
  ◌≡◌, refl, sym, ap, ◌∙◌, Bool, true, false, not, ◌&&◌, List, [], ◌∷◌, ◌++◌, any_of, keep_if,
  all_of, arith, is_empty,
}
use mathlib.Core.List.{append_assoc, append-nil}
use simple_dnsd.Outcome.{Outcome, ok, thrown}
use simple_dnsd.Record.{ResourceRecord}
use simple_dnsd.Inet.{Inet}
use simple_dnsd.Memory.Transaction.{
  Worked, MemZone, Del, MemoryTransaction, deleted_by, apply_deletes, append_pending, commit_zone,
  filled,
}

-- A record that none of the deletions names.
abbrev pub survives : List Del → ResourceRecord → Bool
survives deletes rr = not (any_of (λ d. deleted_by d rr) deletes)

pub keep_if-keep_if :
    {A : Type 0} (p q : A → Bool) (xs : List A)
    → keep_if p (keep_if q xs) ≡ keep_if (λ x. q x && p x) xs
keep_if-keep_if p q [] = refl
keep_if-keep_if p q (x ∷ xs) = ground (arith, keep_if-keep_if p q xs)

pub keep_if-ext :
    {A : Type 0} (p q : A → Bool)
    → ((x : A) → p x ≡ q x)
    → (xs : List A) → keep_if p xs ≡ keep_if q xs
keep_if-ext p q h [] = refl
keep_if-ext p q h (x ∷ xs) = ground (arith, keep_if-ext p q h xs, h x)

pub keep_if-true : {A : Type 0} (xs : List A) → keep_if (λ x. true) xs ≡ xs
keep_if-true [] = refl
keep_if-true (x ∷ xs) = ap (λ t. x ∷ t) (keep_if-true xs)

-- The deletions, one after the other, are one filter.
apply_deletes-keep_if :
    (deletes : List Del) (records : List ResourceRecord)
    → apply_deletes deletes records ≡ keep_if (survives deletes) records
unfolding apply_deletes
apply_deletes-keep_if [] records = sym (keep_if-true records)
apply_deletes-keep_if (d ∷ deletes) records =
    apply_deletes-keep_if deletes (keep_if (λ rr. not (deleted_by d rr)) records)
    ∙ keep_if-keep_if (survives deletes) (λ rr. not (deleted_by d rr)) records
    ∙ keep_if-ext (λ rr. not (deleted_by d rr) && survives deletes rr) (survives (d ∷ deletes))
        (λ rr. ground arith) records

-- Records whose data is there already.
abbrev pub is_filled : ResourceRecord → Bool
is_filled rr = not (is_empty rr.rdata)

module _ (net : Inet) where
  filled-nonempty :
      (rr : ResourceRecord) → is_empty rr.rdata ≡ false → filled net rr ≡ ok (true, rr)
  unfolding filled
  filled-nonempty rr e = rw e refl

  -- The loop's body once the record is filled.
  abbrev goes : List ResourceRecord → List ResourceRecord → Outcome (Bool × ResourceRecord) → Worked
  goes pending records thrown = (thrown, records)
  goes pending records (ok (done, rr)) = append_pending net pending (records ++ rr ∷ [])

  append_pending-filled :
      (pending records : List ResourceRecord)
      → all_of is_filled pending ≡ true
      → append_pending net pending records ≡ (ok true, records ++ pending)
  unfolding append_pending
  append_pending-filled [] records h = ground (arith, append-nil records)
  append_pending-filled (rr ∷ pending) records h =
      let head : is_empty rr.rdata ≡ false = ground arith in
      let tail : all_of is_filled pending ≡ true = ground arith in
      ap (λ (o : Outcome (Bool × ResourceRecord)). goes pending records o) (filled-nonempty rr head)
      ∙ (append_pending-filled pending (records ++ rr ∷ []) tail
          ∙ ap (λ (t : List ResourceRecord). (ok true, t)) (append_assoc records (rr ∷ []) pending))

  -- A commit that neither drops the zone nor sets the serial, and whose added records have their data:
  -- the zone's records that no deletion of the transaction names stay, in their order, and the added
  -- records come behind them, those included that a deletion names.
  pub commit_zone-records :
      (tx : MemoryTransaction) (z : MemZone)
      → tx.drop_zone ≡ false
      → tx.has_serial ≡ false
      → all_of is_filled tx.pending ≡ true
      → commit_zone net tx z
        ≡ (ok true, record z { records = keep_if (survives tx.deletes) z.records ++ tx.pending })
  unfolding commit_zone
  commit_zone-records tx z d s h = ground (
    arith,
    apply_deletes-keep_if tx.deletes z.records,
    append_pending-filled tx.pending (apply_deletes tx.deletes z.records) h,
  )
