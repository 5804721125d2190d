-- ===== src/Record/RrType.antt =====
-- `RrType` of include/simple-dnsd/protocol/dns.hpp. The enumeration has `uint16_t` under it and the
-- program casts any such number to it, so a type is its number.
use simple_dnsd.Base.{
  ℕ, Option, none, some, [], ◌∷◌, ◌++◌, ◌==◌, if◌then◌else◌, Bytes, codes, str_eq, drop, List, Bool,
  take,
}
use simple_dnsd.Text.{to_lower}
use simple_dnsd.Text.Number.{stoi, wrap_int, decimal}
use simple_dnsd.Outcome.{ok, thrown}

abbrev pub a : ℕ
a = 1

abbrev pub ns : ℕ
ns = 2

abbrev pub cname : ℕ
cname = 5

abbrev pub soa : ℕ
soa = 6

abbrev pub ptr : ℕ
ptr = 12

abbrev pub mx : ℕ
mx = 15

abbrev pub txt : ℕ
txt = 16

abbrev pub aaaa : ℕ
aaaa = 28

abbrev pub srv : ℕ
srv = 33

abbrev pub naptr : ℕ
naptr = 35

abbrev pub opt : ℕ
opt = 41

abbrev pub ds : ℕ
ds = 43

abbrev pub rrsig : ℕ
rrsig = 46

abbrev pub nsec : ℕ
nsec = 47

abbrev pub dnskey : ℕ
dnskey = 48

abbrev pub tsig : ℕ
tsig = 250

abbrev pub ixfr : ℕ
ixfr = 251

abbrev pub axfr : ℕ
axfr = 252

abbrev pub any : ℕ
any = 255

abbrev pub caa : ℕ
caa = 257

-- A `switch` or a ladder of tests: the value of the first key that equals `x`.
module _ {ℓ κ} {K : Type ℓ} {V : Type κ} where
  abbrev pub first_match : (K → K → Bool) → K → List (K × V) → Option V
  first_match same x [] = none
  first_match same x ((k, v) ∷ rows) =
      let later = first_match same x rows in if same x k then some v else later

abbrev type_names : List (ℕ × Bytes)
type_names =
    (a, codes "A")
    ∷ (ns, codes "NS")
    ∷ (cname, codes "CNAME")
    ∷ (soa, codes "SOA")
    ∷ (ptr, codes "PTR")
    ∷ (mx, codes "MX")
    ∷ (txt, codes "TXT")
    ∷ (aaaa, codes "AAAA")
    ∷ (srv, codes "SRV")
    ∷ (naptr, codes "NAPTR")
    ∷ (opt, codes "OPT")
    ∷ (tsig, codes "TSIG")
    ∷ (ixfr, codes "IXFR")
    ∷ (axfr, codes "AXFR")
    ∷ (any, codes "ANY")
    ∷ (caa, codes "CAA")
    ∷ (ds, codes "DS")
    ∷ (rrsig, codes "RRSIG")
    ∷ (nsec, codes "NSEC")
    ∷ (dnskey, codes "DNSKEY")
    ∷ []

unfoldable pub rr_type_to_string : ℕ → Bytes
unfolding decimal
rr_type_to_string type = elim (first_match ◌==◌ type type_names) [
  | some name ↦ name
  | none ↦ codes "TYPE" ++ decimal type
]

abbrev type_words : List (Bytes × ℕ)
type_words =
    (codes "a", a)
    ∷ (codes "ns", ns)
    ∷ (codes "cname", cname)
    ∷ (codes "soa", soa)
    ∷ (codes "ptr", ptr)
    ∷ (codes "mx", mx)
    ∷ (codes "txt", txt)
    ∷ (codes "aaaa", aaaa)
    ∷ (codes "srv", srv)
    ∷ (codes "naptr", naptr)
    ∷ (codes "opt", opt)
    ∷ (codes "tsig", tsig)
    ∷ (codes "ixfr", ixfr)
    ∷ (codes "axfr", axfr)
    ∷ (codes "any", any)
    ∷ (codes "caa", caa)
    ∷ (codes "ds", ds)
    ∷ (codes "rrsig", rrsig)
    ∷ (codes "nsec", nsec)
    ∷ (codes "dnskey", dnskey)
    ∷ []

-- `u.rfind("type", 0) == 0` and the number behind it, where `stoi` finds one.
numbered_type : Bytes → Option ℕ
unfolding stoi
numbered_type u =
    if str_eq (take 4 u) (codes "type")
    then elim (stoi 10 (drop 4 u)) [ ok n ↦ some (wrap_int 16 n) | thrown ↦ none ]
    else none

unfoldable pub rr_type_from_string : Bytes → Option ℕ
unfolding numbered_type to_lower
rr_type_from_string name =
    let u = to_lower name in
    elim (first_match str_eq u type_words) [ some type ↦ some type | none ↦ numbered_type u ]
