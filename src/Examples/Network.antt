-- ===== src/Examples/Network.antt =====
-- Sessions over TCP, and the refresh of a secondary.
use simple_dnsd.Base.{ℕ, ◌≡◌, refl, true, some, List, [], ◌∷◌, ◌++◌, Bytes, codes, arith}
use simple_dnsd.Outcome.{ok}
use simple_dnsd.Record.{ResourceRecord}
use simple_dnsd.Memory.{memory_backend}
use simple_dnsd.Memory.Transaction.{commit_zone, new_transaction}
use simple_dnsd.Engine.Handle.{Clocks}
use simple_dnsd.Server.Frame.{send_dns_message, recv_dns_message}
use simple_dnsd.Server.Frame.RoundTrip.{recv_dns_message-send_dns_message}
use simple_dnsd.Server.Secondary.{replace_all, but_last}
use simple_dnsd.Server.Secondary.Replace.{replace_all-records}
use simple_dnsd.Examples.Data.{no_inet, soa, address, mem_zone, zone_records}

-- A query without a question.
abbrev ping : Bytes
ping = 0 ∷ 1 ∷ 0 ∷ 0 ∷ 0 ∷ 0 ∷ 0 ∷ 0 ∷ 0 ∷ 0 ∷ 0 ∷ 0 ∷ []

abbrev clock : ℕ → Clocks
clock k = record { seconds = k; ms = k }

abbrev host_port : Bytes
host_port = codes "192.0.2.7:5300"

recv_dns_message-send_dns_message_example :
    recv_dns_message 65535 (send_dns_message ping ++ 7 ∷ []) ≡ some (ping, 7 ∷ [])
recv_dns_message-send_dns_message_example =
    recv_dns_message-send_dns_message 65535 ping (7 ∷ []) (omega arith) (omega arith) (omega arith)

abbrev transferred : List ResourceRecord
transferred =
    record soa { rdata = 0 ∷ [] }
    ∷ record address { rdata = 192 ∷ 0 ∷ 2 ∷ 9 ∷ [] }
    ∷ record soa { rdata = 0 ∷ [] }
    ∷ []

replace_all-records_example :
    commit_zone no_inet
      (replace_all
        (memory_backend no_inet)
        (new_transaction (codes "example.com."))
        zone_records
        transferred)
      mem_zone
    ≡ (ok true, record mem_zone { records = but_last transferred })
replace_all-records_example =
    replace_all-records no_inet mem_zone (codes "example.com.") transferred refl
