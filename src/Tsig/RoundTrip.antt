-- ===== src/Tsig/RoundTrip.antt =====
-- A message that is signed is verified.
use mathlib.Core.List.{append_assoc}
use simple_dnsd.Base.{
  ℕ, ◌+◌, ◌*◌, ◌/◌, ◌%◌, ◌^◌, ◌<◌, ◌≡◌, refl, ap, ◌∙◌, or-shift, and-ones, bit_and, bit_or, Bool,
  true, false, not, ◌&&◌, some, [], ◌∷◌, ◌++◌, ltb, Bytes, length, take, drop, get_or,
  length-append, get_or-past, drop-past, take-length_append, str_eq_refl, arith,
}
use simple_dnsd.Name.{parse}
use simple_dnsd.Name.Presentation.{IsPlain}
use simple_dnsd.Wire.{put16, to_u8, encode_name, encode_uncompressed}
use simple_dnsd.Wire.Numbers.{bytes16-join}
use simple_dnsd.Wire.RoundTrip.{FitsWire, decode_name-encode_uncompressed}
use simple_dnsd.Record.{new_record, DnsMessage}
use simple_dnsd.Record.RrClass
use simple_dnsd.Rdata.{rdata_to_content-tsig}
use simple_dnsd.Inet.{Inet}
use simple_dnsd.Tsig.{
  TsigKey, put48, get48, word_at, distance, tsig_rdata, fields_at, fields_behind, verify_fields,
  read_fields, mac_input, sign_message, verify_message,
}

-- One byte more behind a number.
next_byte : (v : ℕ) → v < 2 ^ 48 → bit_or (v / 2 ^ 8 * 2 ^ 8) (to_u8 (bit_and v 0xff)) ≡ v
next_byte v h =
    omega (arith, or-shift 8 (v / 2 ^ 8) (to_u8 (bit_and v 0xff)) (omega arith), and-ones 8 v)

first_byte : (v : ℕ) → v < 2 ^ 48 → to_u8 (bit_and (v / 2 ^ 40) 0xff) ≡ v / 2 ^ 32 / 2 ^ 8
first_byte v h = omega (arith, and-ones 8 (v / 2 ^ 40))

bytes48-join :
    (v : ℕ)
    → v < 2 ^ 48
    → bit_or
        (bit_or
            (bit_or
                (bit_or
                    (bit_or
                        (to_u8 (bit_and (v / 2 ^ 40) 0xff) * 2 ^ 8)
                        (to_u8 (bit_and (v / 2 ^ 32) 0xff))
                      * 2 ^ 8)
                    (to_u8 (bit_and (v / 2 ^ 24) 0xff))
                  * 2 ^ 8)
                (to_u8 (bit_and (v / 2 ^ 16) 0xff))
              * 2 ^ 8)
            (to_u8 (bit_and (v / 2 ^ 8) 0xff))
          * 2 ^ 8)
        (to_u8 (bit_and v 0xff))
      ≡ v
bytes48-join v h =
    let same24 : v / 2 ^ 32 ≡ v / 2 ^ 24 / 2 ^ 8 = omega arith in
    let same16 : v / 2 ^ 24 ≡ v / 2 ^ 16 / 2 ^ 8 = omega arith in
    let same8 : v / 2 ^ 16 ≡ v / 2 ^ 8 / 2 ^ 8 = omega arith in
    rw
      (
        first_byte v h,
        next_byte (v / 2 ^ 32) (omega arith),
        same24,
        next_byte (v / 2 ^ 24) (omega arith),
        same16,
        next_byte (v / 2 ^ 16) (omega arith),
        same8,
        next_byte (v / 2 ^ 8) (omega arith),
      )
      (next_byte v h)

-- The bytes behind the name of the algorithm.
abbrev behind_name : ℕ → ℕ → Bytes → ℕ → Bytes
behind_name time fudge mac id =
    to_u8 (bit_and (time / 2 ^ 40) 0xff)
    ∷ to_u8 (bit_and (time / 2 ^ 32) 0xff)
    ∷ to_u8 (bit_and (time / 2 ^ 24) 0xff)
    ∷ to_u8 (bit_and (time / 2 ^ 16) 0xff)
    ∷ to_u8 (bit_and (time / 2 ^ 8) 0xff)
    ∷ to_u8 (bit_and time 0xff)
    ∷ to_u8 (fudge / 2 ^ 8)
    ∷ to_u8 (bit_and fudge 0xff)
    ∷ to_u8 (length mac / 2 ^ 8)
    ∷ to_u8 (bit_and (length mac) 0xff)
    ∷ (mac ++ (to_u8 (id / 2 ^ 8) ∷ to_u8 (bit_and id 0xff) ∷ 0 ∷ 0 ∷ 0 ∷ 0 ∷ []))

tsig_rdata-behind_name :
    (msg : DnsMessage) (key : TsigKey) (time fudge : ℕ) (mac : Bytes)
    → length mac < 2 ^ 16
    → tsig_rdata msg key time fudge mac
      ≡ (encode_uncompressed [] (parse key.algorithm)).1 ++ behind_name time fudge mac msg.header.id
unfolding tsig_rdata encode_name put16 put48
tsig_rdata-behind_name msg key time fudge mac short =
    let w = (encode_uncompressed [] (parse key.algorithm)).1 in
    let fits : length mac % 2 ^ 16 ≡ length mac = omega arith in rw fits (simp append_assoc refl)

module _ (w : Bytes) (time fudge : ℕ) (mac : Bytes) (id : ℕ) where
  abbrev data_bytes : Bytes
  data_bytes = w ++ behind_name time fudge mac id

  at :
      (j i : ℕ)
      → j ≡ length w + i
      → get_or data_bytes j 0 ≡ get_or (behind_name time fudge mac id) i 0
  at j i e = get_or-past w (behind_name time fudge mac id) j i 0 e

  get48-behind_name : time < 2 ^ 48 → get48 data_bytes (length w) ≡ time
  unfolding get48
  get48-behind_name short =
      rw
        (
          get48,
          at (length w) 0 (omega arith),
          at (length w + 1) 1 refl,
          at (length w + 2) 2 refl,
          at (length w + 3) 3 refl,
          at (length w + 4) 4 refl,
          at (length w + 5) 5 refl,
        )
        (bytes48-join time short)

  fudge-behind_name : fudge < 2 ^ 16 → word_at data_bytes (length w + 6) ≡ fudge
  fudge-behind_name short =
      rw (at (length w + 6) 6 refl, at (length w + 6 + 1) 7 (omega arith))
        (bytes16-join fudge short)

  size-behind_name : length mac < 2 ^ 16 → word_at data_bytes (length w + 8) ≡ length mac
  size-behind_name short =
      rw (at (length w + 8) 8 refl, at (length w + 8 + 1) 9 (omega arith))
        (bytes16-join (length mac) short)

  mac-behind_name : take (length mac) (drop (length w + 10) data_bytes) ≡ mac
  mac-behind_name =
      ap (take (length mac)) (drop-past w (behind_name time fudge mac id) (length w + 10) 10 refl)
      ∙ take-length_append mac _

  -- The fields behind the name.
  fields_at-behind_name :
      time < 2 ^ 48
      → fudge < 2 ^ 16
      → length mac < 2 ^ 16
      → fields_at data_bytes (length w)
        ≡ some (record { time_signed = time; fudge = fudge; mac = mac })
  unfolding fields_at
  fields_at-behind_name t f m =
      rw (fields_at, size-behind_name m, get48-behind_name t, fudge-behind_name f, mac-behind_name)
        (ground (
          arith,
          length-append w (behind_name time fudge mac id),
          length-append mac (to_u8 (id / 2 ^ 8) ∷ to_u8 (bit_and id 0xff) ∷ 0 ∷ 0 ∷ 0 ∷ 0 ∷ []),
        ))

-- What a TSIG record's data says is read back.
read_fields-tsig_rdata :
    (msg : DnsMessage) (key : TsigKey) (time fudge : ℕ) (mac : Bytes)
    → FitsWire (parse key.algorithm)
    → IsPlain (parse key.algorithm)
    → time < 2 ^ 48
    → fudge < 2 ^ 16
    → length mac < 2 ^ 16
    → read_fields (tsig_rdata msg key time fudge mac)
      ≡ some (record { time_signed = time; fudge = fudge; mac = mac })
unfolding read_fields fields_behind
read_fields-tsig_rdata msg key time fudge mac fits plain t f m =
    let w = (encode_uncompressed [] (parse key.algorithm)).1 in
    let (out, e, named) =
      decode_name-encode_uncompressed (parse key.algorithm) []
        (behind_name time fudge mac msg.header.id) fits plain in
    let same : w ≡ out = ap (λ p. p.1) e in
    let rest = behind_name time fudge mac msg.header.id in
    ap read_fields (tsig_rdata-behind_name msg key time fudge mac m ∙ ap (λ t. t ++ rest) same)
    ∙ ap (fields_behind (out ++ rest)) named
    ∙ fields_at-behind_name out time fudge mac msg.header.id t f m

and_true : (b : Bool) → (b && true) ≡ b
and_true true = refl
and_true false = refl

-- A message that `signMessage` signed is accepted by `verifyMessage` under the same key just as long as the
-- two clocks are no further apart than the fudge, for an algorithm whose name has labels of 1 to 63
-- plain bytes, a clock below 2 ^ 48 seconds, a 16-bit fudge and a hash shorter than 2 ^ 16 bytes.
pub verify_message-sign_message :
    (hmac : Bytes → Bytes → Bytes) (now later : ℕ) (net : Inet) (msg : DnsMessage) (key : TsigKey)
    (fudge : ℕ)
    → FitsWire (parse key.algorithm)
    → IsPlain (parse key.algorithm)
    → now < 2 ^ 48
    → fudge < 2 ^ 16
    → length (hmac key.secret (mac_input msg key now fudge)) < 2 ^ 16
    → verify_message hmac later (sign_message hmac now net msg key fudge).1 key
      ≡ not (ltb fudge (distance later now))
unfolding sign_message verify_message verify_fields mac_input
verify_message-sign_message hmac now later net msg key fudge fits plain t f m =
    let mac = hmac key.secret (mac_input msg key now fudge) in
    let data_read = read_fields-tsig_rdata msg key now fudge mac fits plain t f m in
    let signed = (sign_message hmac now net msg key fudge).1 in
    ap (verify_fields hmac later signed key) (
      ap read_fields (
        rdata_to_content-tsig net (record new_record {
          name = key.name;
          rclass = RrClass.any;
          ttl = 0;
          rdata = tsig_rdata msg key now fudge mac;
        }))
      ∙ data_read)
    ∙ ap (λ (b : Bool). not (ltb fudge (distance later now)) && b) (str_eq_refl mac)
    ∙ and_true (not (ltb fudge (distance later now)))
