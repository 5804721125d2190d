-- ===== src/Record/Rcode.antt =====
-- `Rcode` of include/simple-dnsd/protocol/dns.hpp: a response code is its number.
use simple_dnsd.Base.{ℕ}

abbrev pub no_error : ℕ
no_error = 0

abbrev pub form_err : ℕ
form_err = 1

abbrev pub serv_fail : ℕ
serv_fail = 2

abbrev pub nx_domain : ℕ
nx_domain = 3

abbrev pub not_imp : ℕ
not_imp = 4

abbrev pub refused : ℕ
refused = 5

abbrev pub yx_domain : ℕ
yx_domain = 6

abbrev pub yx_rrset : ℕ
yx_rrset = 7

abbrev pub nx_rrset : ℕ
nx_rrset = 8

abbrev pub not_auth : ℕ
not_auth = 9

abbrev pub not_zone : ℕ
not_zone = 10
