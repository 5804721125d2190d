-- ===== src/Rdata/Unpack.antt =====
-- `rdataToContent`: the wire form of a record's data to its text. It returns the flag of the source
-- with the record as it leaves it.
use simple_dnsd.Base.{
  ℕ, zero, suc, ◌≡◌, refl, inl, inr, Bool-cases, ◌+◌, ◌-◌, ◌%◌, ◌/◌, Bool, true, false, not, ◌&&◌,
  ◌||◌, Option, none, some, [], ◌∷◌, ◌++◌, ltb, ◌==◌, if◌then◌else◌, Bytes, codes, length, take,
  drop, is_empty,
}
use simple_dnsd.Chain.{◌>>=◌}
use simple_dnsd.Text.Number.{decimal}
use simple_dnsd.Name.{to_string}
use simple_dnsd.Wire.{get16, get32, decode_name}
use simple_dnsd.Record.{ResourceRecord}
use simple_dnsd.Record.RrType
use simple_dnsd.Inet.{Inet}

abbrev space : Bytes
space = codes " "

unfoldable pub decode_domain_rdata : Bytes → ℕ → Option (Bytes × ℕ)
unfolding decode_name to_string
decode_domain_rdata inp off = do (n, off') ← decode_name inp off; some (to_string true n, off')

-- The record with its new content, or as it was.
abbrev with_content : ResourceRecord → Option Bytes → Bool × ResourceRecord
with_content rr none = (false, rr)
with_content rr (some text) = (true, record rr { content = text })

unpack_domain : ResourceRecord → Bool × ResourceRecord
unfolding decode_domain_rdata
unpack_domain rr = with_content rr (do (name, off) ← decode_domain_rdata rr.rdata 0; some name)

-- `rr.prio` is written once the number is read, also where what follows is refused.
unpack_mx : ResourceRecord → Bool × ResourceRecord
unfolding get16 decode_domain_rdata decimal
unpack_mx rr = elim (get16 rr.rdata 0) [
  | none ↦ (false, rr)
  | some (prio, off) ↦
      with_content (record rr { prio = prio })
        (do (host, off') ← decode_domain_rdata rr.rdata off; some (decimal prio ++ (space ++ host)))
]

unpack_soa : ResourceRecord → Bool × ResourceRecord
unfolding get32 decode_domain_rdata decimal
unpack_soa rr = with_content rr (do
  (mname, o1) ← decode_domain_rdata rr.rdata 0
  (rname, o2) ← decode_domain_rdata rr.rdata o1
  (serial, o3) ← get32 rr.rdata o2
  (refresh, o4) ← get32 rr.rdata o3
  (retry, o5) ← get32 rr.rdata o4
  (expire, o6) ← get32 rr.rdata o5
  (minimum, o7) ← get32 rr.rdata o6
  some (
      mname
      ++ (space
          ++ (rname
              ++ (space
                  ++ (decimal serial
                      ++ (space
                          ++ (decimal refresh
                              ++ (space
                                  ++ (decimal retry
                                      ++ (space
                                          ++ (decimal expire
                                              ++ (space ++ decimal minimum)))))))))))))

-- The loop of the TXT case over the data that is left; a round takes one byte or more, so the
-- length of the data is fuel enough.
txt_text : ℕ → Bytes → Option Bytes
txt_text fuel [] = some []
txt_text zero (n ∷ rdata) = none
txt_text (suc fuel) (n ∷ rdata) =
    let rest = txt_text fuel (drop n rdata) in
    if ltb (length rdata) n then none else (do text ← rest; some (take n rdata ++ text))

unpack_txt : ResourceRecord → Bool × ResourceRecord
unfolding txt_text
unpack_txt rr =
    with_content rr
      (do text ← txt_text (length rr.rdata) rr.rdata; some (b'"' ∷ (text ++ b'"' ∷ [])))

srv_numbers : Bytes → Option (ℕ × ℕ × ℕ × ℕ)
unfolding get16
srv_numbers rdata = do
  (prio, o1) ← get16 rdata 0
  (weight, o2) ← get16 rdata o1
  (port, o3) ← get16 rdata o2
  some (prio, weight, port, o3)

unpack_srv : ResourceRecord → Bool × ResourceRecord
unfolding srv_numbers decode_domain_rdata decimal
unpack_srv rr = elim (srv_numbers rr.rdata) [
  | none ↦ (false, rr)
  | some (prio, weight, port, off) ↦
      with_content (record rr { prio = prio })
        (do
          (target, off') ← decode_domain_rdata rr.rdata off
          some (
              decimal prio
              ++ (space ++ (decimal weight ++ (space ++ (decimal port ++ (space ++ target)))))))
]

unpack_caa : ResourceRecord → Bytes → Bool × ResourceRecord
unfolding decimal
unpack_caa rr (flag ∷ taglen ∷ rest) =
    if ltb (2 + length rest) (2 + taglen)
    then (false, rr)
    else with_content rr (
        some (
          decimal flag
          ++ (space ++ (take taglen rest ++ (codes " \"" ++ (drop taglen rest ++ codes "\""))))))
unpack_caa rr _ = (false, rr)

abbrev hex_digit : ℕ → ℕ
hex_digit d = if ltb d 10 then b'0' + d else b'A' + (d - 10)

-- A blank and two upper-case hexadecimal digits for each byte.
hex_text : Bytes → Bytes
hex_text [] = []
hex_text (b ∷ rdata) = b' ' ∷ hex_digit (b / 16) ∷ hex_digit (b % 16) ∷ hex_text rdata

unpack_unknown : ResourceRecord → Bool × ResourceRecord
unfolding hex_text decimal
unpack_unknown rr =
    with_content rr (some (codes "\\# " ++ (decimal (length rr.rdata) ++ hex_text rr.rdata)))

-- `rr.content = …ToString(rr.rdata); return !rr.content.empty();`
address_content : ResourceRecord → Bytes → Bool × ResourceRecord
address_content rr text = (not (is_empty text), record rr { content = text })

module _ (net : Inet) where
  abbrev ipv4_to_string : Bytes → Bytes
  ipv4_to_string rdata = if not (length rdata == 4) then [] else net.ntop4 rdata

  abbrev ipv6_to_string : Bytes → Bytes
  ipv6_to_string rdata = if not (length rdata == 16) then [] else net.ntop6 rdata

  unpack : ResourceRecord → Bool × ResourceRecord
  unfolding address_content unpack_domain unpack_mx unpack_soa unpack_txt unpack_srv unpack_caa
      unpack_unknown
  unpack rr =
      let t = rr.type in
      if t == RrType.a
      then address_content rr (ipv4_to_string rr.rdata)
      else if t == RrType.aaaa
      then address_content rr (ipv6_to_string rr.rdata)
      else if t == RrType.ns || t == RrType.cname || t == RrType.ptr
      then unpack_domain rr
      else if t == RrType.mx
      then unpack_mx rr
      else if t == RrType.soa
      then unpack_soa rr
      else if t == RrType.txt
      then unpack_txt rr
      else if t == RrType.srv
      then unpack_srv rr
      else if t == RrType.caa
      then unpack_caa rr rr.rdata
      else unpack_unknown rr

  unfoldable pub rdata_to_content : ResourceRecord → Bool × ResourceRecord
  unfolding unpack
  rdata_to_content rr =
      if is_empty rr.rdata && not (is_empty rr.content) then (true, rr) else unpack rr

  -- The data of a TSIG record is left alone.
  pub rdata_to_content-tsig :
      (rr : ResourceRecord)
      → (rdata_to_content (record rr { type = RrType.tsig })).1.rdata ≡ rr.rdata
  unfolding rdata_to_content unpack unpack_unknown
  rdata_to_content-tsig rr = elim (Bool-cases (is_empty rr.rdata && not (is_empty rr.content))) [
    | inl written ↦ rw written refl
    | inr unwritten ↦ rw unwritten refl
  ]
