-- ===== src/Record/RrClass.antt =====
-- `RrClass` of include/simple-dnsd/protocol/dns.hpp: a class is its 16-bit number.
use simple_dnsd.Base.{ℕ}

abbrev pub in_class : ℕ
in_class = 1

abbrev pub cs : ℕ
cs = 2

abbrev pub ch : ℕ
ch = 3

abbrev pub hs : ℕ
hs = 4

abbrev pub any : ℕ
any = 255
