-- ===== src/Record/Opcode.antt =====
-- `Opcode` of include/simple-dnsd/protocol/dns.hpp: an opcode is its number.
use simple_dnsd.Base.{ℕ}

abbrev pub query : ℕ
query = 0

abbrev pub iquery : ℕ
iquery = 1

abbrev pub status : ℕ
status = 2

abbrev pub notify : ℕ
notify = 4

abbrev pub update : ℕ
update = 5
