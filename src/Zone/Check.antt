-- ===== src/Zone/Check.antt =====
-- `checkZone` and `rectifyZone`.
pub mod Sound
use simple_dnsd.Base.{
  ℕ, Bool, true, false, not, ◌&&◌, ◌||◌, List, [], ◌∷◌, ◌++◌, ◌==◌, if◌then◌else◌, Bytes, is_empty,
}
use simple_dnsd.Outcome.{Outcome, ok, thrown, ◌>>=◌}
use simple_dnsd.Name.{DnsName, equals, is_subdomain_of}
use simple_dnsd.Record.{ResourceRecord}
use simple_dnsd.Record.RrType
use simple_dnsd.Inet.{Inet}
use simple_dnsd.Rdata.{content_to_rdata}
use simple_dnsd.Serial.{with_text}

-- The texts of `errors`.
pub data ZoneError : Type 0 where
  out_of_zone : DnsName → ZoneError
  missing_soa missing_ns : ZoneError

pub record ZoneCheck : Type 0 where
  pub passed : Bool
  pub errors : List ZoneError

abbrev pub belongs : DnsName → ResourceRecord → Bool
belongs origin rr = is_subdomain_of rr.name origin || equals rr.name origin

abbrev pub at_apex : DnsName → ℕ → ResourceRecord → Bool
at_apex origin type rr = equals rr.name origin && rr.type == type

-- The loop, with the flags `has_soa` and `has_ns`.
unfoldable pub scan :
    DnsName → ZoneCheck → Bool → Bool → List ResourceRecord → ZoneCheck × Bool × Bool
unfolding is_subdomain_of equals
scan origin c has_soa has_ns [] = (c, has_soa, has_ns)
scan origin c has_soa has_ns (rr ∷ rrs) =
    scan origin
      (if not (belongs origin rr)
        then record { passed = false; errors = c.errors ++ out_of_zone rr.name ∷ [] }
        else c)
      (has_soa || at_apex origin RrType.soa rr) (has_ns || at_apex origin RrType.ns rr) rrs

unfoldable pub complain : Bool → ZoneError → ZoneCheck → ZoneCheck
complain true e c = c
complain false e c = record { passed = false; errors = c.errors ++ e ∷ [] }

unfoldable pub check_zone : DnsName → List ResourceRecord → ZoneCheck
unfolding scan complain
check_zone origin rrs =
    let (c, has_soa, has_ns) =
      scan origin (record { passed = true; errors = [] }) false false rrs in
    complain has_ns missing_ns (complain has_soa missing_soa c)

module _ (net : Inet) where
  -- One record of `rectifyZone`: the missing form of its data is filled in.
  rectify_record : ResourceRecord → Outcome ResourceRecord
  unfolding content_to_rdata
  rectify_record rr =
      if is_empty rr.rdata
      then (do (done, rr') ← content_to_rdata net rr; ok (with_text net rr'))
      else ok (with_text net rr)

  unfoldable pub rectify_zone : List ResourceRecord → Outcome (List ResourceRecord)
  unfolding rectify_record
  rectify_zone [] = ok []
  rectify_zone (rr ∷ rrs) = do rr' ← rectify_record rr; rrs' ← rectify_zone rrs; ok (rr' ∷ rrs')
