-- ===== src/Backend.antt =====
-- include/simple-dnsd/backend/backend.hpp: zones, and the interface that every backend implements. A
-- backend with state `S` and open transactions `T` is the record of its operations; the state comes
-- back beside the result, also where an exception ends the call.
use simple_dnsd.Base.{ℕ, Bool, Option, List, [], Bytes}
use simple_dnsd.Name.{DnsName, root}
use simple_dnsd.Record.{ResourceRecord}
use simple_dnsd.Outcome.{Outcome}

pub data ZoneKind : Type 0 where
  native master slave : ZoneKind

-- `std::int64_t`; the program uses -1 and the positive numbers. `negsuc n` is -(n + 1).
pub data ℤ : Type 0 where
  pos : ℕ → ℤ
  negsuc : ℕ → ℤ

pub record ZoneInfo : Type 0 where
  pub id : ℤ
  pub name : DnsName
  pub kind : ZoneKind
  pub master : Bytes
  pub account : Bytes
  pub file : Bytes
  pub also_notify : List Bytes
  pub allow_axfr : List Bytes
  pub allow_update : List Bytes
  pub notified_serial : ℕ

abbrev pub new_zone : ZoneInfo
new_zone = record {
  id = negsuc 0;
  name = root;
  kind = native;
  master = [];
  account = [];
  file = [];
  also_notify = [];
  allow_axfr = [];
  allow_update = [];
  notified_serial = 0;
}

-- `Transaction`. The operations return a flag with the transaction.
pub record Transaction (S T : Type 0) : Type 0 where
  pub add_record : T → ResourceRecord → Bool × T
  pub replace_rrset : T → DnsName → ℕ → List ResourceRecord → Bool × T
  pub delete_rrset : T → DnsName → ℕ → Bool × T
  pub delete_name : T → DnsName → Bool × T
  pub drop_zone : T → Bool × T
  pub set_soa_serial : T → ℕ → Outcome Bool × T
  pub commit : T → S → Outcome Bool × S
  pub rollback : T → T

-- `Backend`. `list_zone` returns the records that the source hands to the callback.
pub record Backend (S T : Type 0) : Type 0 where
  pub initialize : S → Outcome Bool × S
  pub writable : S → Bool
  pub find_zone : S → DnsName → Option ZoneInfo
  pub list_zones : S → List ZoneInfo
  pub lookup : S → ZoneInfo → DnsName → ℕ → List ResourceRecord
  pub list_zone : S → ZoneInfo → List ResourceRecord
  pub name_exists : S → ZoneInfo → DnsName → Bool
  pub find_delegation : S → ZoneInfo → DnsName → Option DnsName
  pub begin : S → ZoneInfo → Option T
  pub create_zone : S → ZoneInfo → ResourceRecord → Outcome Bool × S
  pub delete_zone : S → ZoneInfo → Bool × S
  pub transaction : Transaction S T
