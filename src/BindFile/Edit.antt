-- ===== src/BindFile/Edit.antt =====
-- The transaction of src/simple-dnsd/backend/bindfile.cpp, `Tx`: it edits a copy of the zone's records.
use simple_dnsd.Base.{
  ℕ, Bool, true, not, ◌&&◌, List, [], ◌∷◌, ◌++◌, ◌==◌, if◌then◌else◌, Bytes, keep_if,
}
use simple_dnsd.Outcome.{Outcome, ok, thrown}
use simple_dnsd.Name.{DnsName, equals}
use simple_dnsd.Record.{ResourceRecord}
use simple_dnsd.Record.RrType
use simple_dnsd.Inet.{Inet}
use simple_dnsd.Serial

-- The pointer to the backend is the state that `commit` is given.
pub record BindTransaction : Type 0 where
  pub key : Bytes
  pub records : List ResourceRecord

unfoldable pub add_record : BindTransaction → ResourceRecord → Bool × BindTransaction
add_record tx rr = (true, record tx { records = tx.records ++ rr ∷ [] })

unfoldable pub delete_rrset : BindTransaction → DnsName → ℕ → Bool × BindTransaction
unfolding equals
delete_rrset tx name type = (
  true,
  record tx { records = keep_if (λ rr. not (equals rr.name name && rr.type == type)) tx.records },
)

unfoldable pub replace_rrset :
    BindTransaction → DnsName → ℕ → List ResourceRecord → Bool × BindTransaction
unfolding delete_rrset
replace_rrset tx name type rrs =
    let tx' = (delete_rrset tx name type).1 in (true, record tx' { records = tx'.records ++ rrs })

unfoldable pub delete_name : BindTransaction → DnsName → Bool × BindTransaction
unfolding equals
delete_name tx name =
    (true, record tx { records = keep_if (λ rr. not (equals rr.name name)) tx.records })

module _ (net : Inet) where
  -- The loop of `setSoaSerial`, over the SOA records at any name. Where a call throws, the records
  -- behind it are as they were.
  unfoldable pub set_serials : ℕ → List ResourceRecord → Outcome Bool × List ResourceRecord
  unfolding Serial.set_soa_serial
  set_serials serial [] = (ok true, [])
  set_serials serial (rr ∷ records) =
      let (done, rest) = set_serials serial records in
      if rr.type == RrType.soa
      then (let (set, rr') = Serial.set_soa_serial net rr serial in
          elim set [ ok b ↦ (done, rr' ∷ rest) | thrown ↦ (thrown, rr' ∷ records) ])
      else (done, rr ∷ rest)

  unfoldable pub set_soa_serial : BindTransaction → ℕ → Outcome Bool × BindTransaction
  unfolding set_serials
  set_soa_serial tx serial =
      let (done, records) = set_serials serial tx.records in (done, record tx { records = records })
