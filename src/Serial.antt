-- ===== src/Serial.antt =====
-- The SOA serial: `soaSerial`, `setSoaSerial` and `bumpSerial` of src/simple-dnsd/zone/zone.cpp.
use simple_dnsd.Base.{
  ℕ, ◌+◌, ◌%◌, ◌^◌, Bool, false, List, [], ◌∷◌, if◌then◌else◌, ltb, Bytes, codes, length, set,
  is_empty,
}
use simple_dnsd.Outcome.{Outcome, ok, thrown, catch_with}
use simple_dnsd.Text.{split_ws, join}
use simple_dnsd.Text.Number.{stoul, decimal}
use simple_dnsd.Record.{ResourceRecord}
use simple_dnsd.Inet.{Inet}
use simple_dnsd.Rdata.{content_to_rdata, rdata_to_content}

-- A call that threw left the record as it was when the call began.
abbrev pub settled :
    ResourceRecord → Outcome (Bool × ResourceRecord) → Outcome Bool × ResourceRecord
settled rr (ok (done, rr')) = (ok done, rr')
settled rr thrown = (thrown, rr)

module _ (net : Inet) where
  -- The record with its content filled in, if that is empty.
  abbrev pub with_text : ResourceRecord → ResourceRecord
  with_text rr = if is_empty rr.content then (rdata_to_content net rr).1 else rr

  serial_of : List Bytes → ℕ
  unfolding stoul
  serial_of (mname ∷ rname ∷ serial ∷ parts) =
      catch_with 0 (elim (stoul serial) [ ok v ↦ ok (v % 2 ^ 32) | thrown ↦ thrown ])
  serial_of _ = 0

  unfoldable pub soa_serial : ResourceRecord → ℕ
  unfolding serial_of split_ws rdata_to_content
  soa_serial soa =
      let parts = split_ws soa.content in
      serial_of (if ltb (length parts) 3 then split_ws (with_text soa).content else parts)

  unfoldable pub set_soa_serial : ResourceRecord → ℕ → Outcome Bool × ResourceRecord
  unfolding split_ws join decimal content_to_rdata rdata_to_content
  set_soa_serial soa serial =
      let soa' = with_text soa in
      let parts = split_ws soa'.content in
      let edited = record soa' {
        content = join (set parts 2 (decimal serial)) (codes " ");
        rdata = [];
      } in
      if ltb (length parts) 7
      then (ok false, soa')
      else settled edited (content_to_rdata net edited)

unfoldable pub bump_serial : ℕ → ℕ
bump_serial serial = (serial + 1) % 2 ^ 32
