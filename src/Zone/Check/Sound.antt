-- ===== src/Zone/Check/Sound.antt =====
-- When `checkZone` passes.
use simple_dnsd.Base.{
  ◌≡◌, Bool, true, false, not, ◌&&◌, ◌||◌, List, [], ◌∷◌, ◌++◌, any_of, all_of, arith,
  if◌then◌else◌,
}
use simple_dnsd.Name.{DnsName}
use simple_dnsd.Record.{ResourceRecord}
use simple_dnsd.Record.RrType
use simple_dnsd.Zone.Check.{ZoneError, ZoneCheck, belongs, at_apex, scan, complain, check_zone}

module _ (origin : DnsName) where
  scan-passed :
      (c : ZoneCheck) (has_soa has_ns : Bool) (rrs : List ResourceRecord)
      → ((scan origin c has_soa has_ns rrs).0.passed ≡ (c.passed && all_of (belongs origin) rrs))
        × ((scan origin c has_soa has_ns rrs).1
            ≡ (has_soa || any_of (at_apex origin RrType.soa) rrs))
        × ((scan origin c has_soa has_ns rrs).2 ≡ (has_ns || any_of (at_apex origin RrType.ns) rrs))
  unfolding scan
  scan-passed c has_soa has_ns [] = ground arith
  scan-passed c has_soa has_ns (rr ∷ rrs) =
      let c' : ZoneCheck =
        if not (belongs origin rr)
        then record { passed = false; errors = c.errors ++ ZoneError.out_of_zone rr.name ∷ [] }
        else c in
      ground (
        arith,
        scan-passed c' (has_soa || at_apex origin RrType.soa rr)
            (has_ns || at_apex origin RrType.ns rr) rrs,
      )

  -- `checkZone` passes exactly the zones whose records all lie at or below the origin, with a SOA
  -- record and an NS record at the origin itself.
  pub check_zone-passed :
      (rrs : List ResourceRecord)
      → (check_zone origin rrs).passed ≡ (
          all_of (belongs origin) rrs
          && (any_of (at_apex origin RrType.soa) rrs && any_of (at_apex origin RrType.ns) rrs))
  unfolding check_zone complain
  check_zone-passed rrs =
      ground (arith, scan-passed (record { passed = true; errors = [] }) false false rrs)
