-- ===== src/Zone/Write.antt =====
-- `writeZoneText`.
use simple_dnsd.Base.{true, false, List, [], ◌∷◌, ◌++◌, if◌then◌else◌, Bytes, codes, is_empty}
use simple_dnsd.Text.Number.{decimal}
use simple_dnsd.Name.{DnsName, to_string, make_relative}
use simple_dnsd.Record.{ResourceRecord}
use simple_dnsd.Record.RrType.{rr_type_to_string}
use simple_dnsd.Inet.{Inet}
use simple_dnsd.Serial.{with_text}

module _ (net : Inet) where
  unfoldable pub write_record : DnsName → ResourceRecord → Bytes
  unfolding make_relative to_string decimal rr_type_to_string
  write_record origin rr =
      let rel = make_relative rr.name origin in
      let owner = if is_empty rel.labels then codes "@" else to_string false rel in
      owner
      ++ (codes "\t"
          ++ (decimal rr.ttl
              ++ (codes "\tIN\t"
                  ++ (rr_type_to_string rr.type
                      ++ (codes "\t" ++ ((with_text net rr).content ++ codes "\n"))))))

  write_records : DnsName → List ResourceRecord → Bytes
  unfolding write_record
  write_records origin [] = []
  write_records origin (rr ∷ rrs) = write_record origin rr ++ write_records origin rrs

  unfoldable pub write_zone_text : DnsName → List ResourceRecord → Bytes
  unfolding write_records to_string
  write_zone_text origin rrs =
      codes "$ORIGIN "
      ++ (to_string true origin
          ++ (codes "\n" ++ (codes "$TTL 3600\n" ++ write_records origin rrs)))
