-- ===== src/Examples/Storage.antt =====
-- The memory backend, the router, the map and the check of a zone.
use simple_dnsd.Base.{◌≡◌, ◌&&◌, refl, true, false, [], ◌∷◌, ◌++◌, codes, keep_if, any_of, all_of}
use simple_dnsd.Outcome.{ok}
use simple_dnsd.Record.RrType
use simple_dnsd.Memory.{find_zone}
use simple_dnsd.Memory.Transaction.{MemoryTransaction, commit_zone, new_transaction}
use simple_dnsd.Memory.Lookup.{Longest, find_zone-Longest}
use simple_dnsd.Memory.Commit.{survives, commit_zone-records}
use simple_dnsd.Router
use simple_dnsd.Router.Longest.{RouterLongest, find_zone-RouterLongest}
use simple_dnsd.Zone.Check.{check_zone, belongs, at_apex}
use simple_dnsd.Zone.Check.Sound.{check_zone-passed}
use simple_dnsd.Examples.Data.{
  example_com, www, no_inet, zone_records, mem_zone, zones, backends, ops, address,
}

find_zone-Longest_example : Longest www zones (find_zone zones www)
find_zone-Longest_example = find_zone-Longest zones www

find_zone-RouterLongest_example : RouterLongest ops www backends (Router.find_zone ops backends www)
find_zone-RouterLongest_example = find_zone-RouterLongest ops www backends

abbrev moved : MemoryTransaction
moved = record (new_transaction (codes "example.com.")) {
  pending = (record address { rdata = 192 ∷ 0 ∷ 2 ∷ 9 ∷ [] }) ∷ [];
  deletes = (record { name = www; type = RrType.a; all = false }) ∷ [];
}

commit_zone-records_example : commit_zone no_inet moved mem_zone ≡ (
  ok true,
  record mem_zone { records = keep_if (survives moved.deletes) zone_records ++ moved.pending },
)
commit_zone-records_example = commit_zone-records no_inet moved mem_zone refl refl refl

check_zone-passed_example : (check_zone example_com zone_records).passed ≡ (
    all_of (belongs example_com) zone_records
    && (any_of (at_apex example_com RrType.soa) zone_records
        && any_of (at_apex example_com RrType.ns) zone_records))
check_zone-passed_example = check_zone-passed example_com zone_records
