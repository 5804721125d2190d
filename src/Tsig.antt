-- ===== src/Tsig.antt =====
-- src/simple-dnsd/protocol/tsig.cpp. The keyed hash and the clock are parameters: `hmac` is
-- `hmacSha256`, OpenSSL's HMAC where the build has SIMPLE_DNSD_SSL and no byte where it has not, and
-- `now` is the system clock in seconds.
pub mod Base64
pub mod RoundTrip
use simple_dnsd.Base.{
  ℕ, ◌+◌, ◌-◌, ◌*◌, ◌/◌, ◌%◌, ◌^◌, bit_and, bit_or, Bool, false, not, ◌&&◌, ◌||◌, Option, none,
  some, [], ◌∷◌, ◌++◌, ltb, if◌then◌else◌, Bytes, length, take, drop, str_eq, get_or, is_empty,
}
use simple_dnsd.Name.{DnsName, parse}
use simple_dnsd.Wire.{put16, to_u8, encode_name, decode_name}
use simple_dnsd.Record.{ResourceRecord, new_record, DnsMessage}
use simple_dnsd.Record.RrType
use simple_dnsd.Record.RrClass
use simple_dnsd.Inet.{Inet}
use simple_dnsd.Rdata.{rdata_to_content}
use simple_dnsd.Message.{encode_message}

pub record TsigKey : Type 0 where
  pub name : DnsName
  pub algorithm : Bytes
  pub secret : Bytes

unfoldable pub put48 : Bytes → ℕ → Bytes
put48 out v =
    out
    ++ (to_u8 (bit_and (v / 2 ^ 40) 0xff)
        ∷ to_u8 (bit_and (v / 2 ^ 32) 0xff)
        ∷ to_u8 (bit_and (v / 2 ^ 24) 0xff)
        ∷ to_u8 (bit_and (v / 2 ^ 16) 0xff)
        ∷ to_u8 (bit_and (v / 2 ^ 8) 0xff)
        ∷ to_u8 (bit_and v 0xff)
        ∷ [])

-- `encodeName(out, name, nullptr, false)`, whose flag is not read.
abbrev pub put_name : Bytes → DnsName → Bytes
put_name out name = (encode_name out name none false).1

-- What is hashed: the message with no TSIG, and the variables of the key and the time.
unfoldable pub mac_input : DnsMessage → TsigKey → ℕ → ℕ → Bytes
unfolding encode_message encode_name put16 put48 parse
mac_input msg key time fudge =
    let wire = (encode_message (record msg { tsig = none }) 0).0 in
    let keyed = put16 (put_name wire key.name) RrClass.any ++ (0 ∷ 0 ∷ 0 ∷ 0 ∷ []) in
    put16 (put16 (put16 (put48 (put_name keyed (parse key.algorithm)) time) fudge) 0) 0

-- The data of a TSIG record.
unfoldable pub tsig_rdata : DnsMessage → TsigKey → ℕ → ℕ → Bytes → Bytes
unfolding encode_name put16 put48 parse
tsig_rdata msg key time fudge mac =
    let head = put16 (put48 (put_name [] (parse key.algorithm)) time) fudge in
    put16 (put16 (put16 (put16 head (length mac % 2 ^ 16) ++ mac) msg.header.id) 0) 0

-- Six bytes, the first the most significant.
unfoldable pub get48 : Bytes → ℕ → ℕ
get48 rdata off =
    bit_or
      (bit_or
          (bit_or
              (bit_or (bit_or (get_or rdata off 0 * 2 ^ 8) (get_or rdata (off + 1) 0) * 2 ^ 8)
                  (get_or rdata (off + 2) 0)
                * 2 ^ 8)
              (get_or rdata (off + 3) 0)
            * 2 ^ 8)
          (get_or rdata (off + 4) 0)
        * 2 ^ 8)
      (get_or rdata (off + 5) 0)

abbrev pub word_at : Bytes → ℕ → ℕ
word_at rdata off = bit_or (get_or rdata off 0 * 2 ^ 8) (get_or rdata (off + 1) 0)

abbrev pub distance : ℕ → ℕ → ℕ
distance a b = if ltb b a then a - b else b - a

-- The parts of a TSIG record's data behind the name of the algorithm.
pub record TsigFields : Type 0 where
  pub time_signed : ℕ
  pub fudge : ℕ
  pub mac : Bytes

unfoldable pub fields_at : Bytes → ℕ → Option TsigFields
unfolding get48
fields_at rdata off =
    let mac_size = word_at rdata (off + 8) in
    if ltb (length rdata) (off + 6 + 2 + 2)
    then none
    else if ltb (length rdata) (off + 10 + mac_size)
    then none
    else some (record {
      time_signed = get48 rdata off;
      fudge = word_at rdata (off + 6);
      mac = take mac_size (drop (off + 10) rdata);
    })

unfoldable pub fields_behind : Bytes → Option (DnsName × ℕ) → Option TsigFields
unfolding fields_at
fields_behind rdata none = none
fields_behind rdata (some (alg, off)) = fields_at rdata off

unfoldable pub read_fields : Bytes → Option TsigFields
unfolding decode_name fields_behind
read_fields rdata = fields_behind rdata (decode_name rdata 0)

module _ (hmac : Bytes → Bytes → Bytes) (now : ℕ) where
  -- `signMessage`: the message with its TSIG record, and the flag that is returned.
  unfoldable pub sign_message : Inet → DnsMessage → TsigKey → ℕ → Bool × DnsMessage
  unfolding mac_input tsig_rdata rdata_to_content
  sign_message net msg key fudge =
      let mac = hmac key.secret (mac_input msg key now fudge) in
      let tsig : ResourceRecord = record new_record {
        name = key.name;
        type = RrType.tsig;
        rclass = RrClass.any;
        ttl = 0;
        rdata = tsig_rdata msg key now fudge mac;
      } in
      (
        not (is_empty mac) || is_empty key.secret,
        record msg { tsig = some (rdata_to_content net tsig).1 },
      )

  -- The tests of the time and of the hash.
  unfoldable pub verify_fields : DnsMessage → TsigKey → Option TsigFields → Bool
  unfolding mac_input
  verify_fields msg key none = false
  verify_fields msg key (some f) =
      not (ltb f.fudge (distance now f.time_signed))
      && str_eq (hmac key.secret (mac_input msg key f.time_signed f.fudge)) f.mac

  -- `verifyMessage`; the texts that it returns by `error` are read by no caller.
  unfoldable pub verify_message : DnsMessage → TsigKey → Bool
  unfolding read_fields verify_fields
  verify_message msg key = elim msg.tsig [
    | none ↦ false
    | some tsig ↦ verify_fields msg key (read_fields tsig.rdata)
  ]
