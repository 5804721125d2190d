-- ===== src/Examples/Names.antt =====
-- Names, numbers and messages.
use simple_dnsd.Base.{
  ℕ, ◌<◌, ◌≤◌, ◌≡◌, ◌⊎◌, refl, true, false, some, [], ◌∷◌, ◌++◌, Bytes, codes, length, arith,
}
use simple_dnsd.Text.{is_space}
use simple_dnsd.Name.{DnsName, parse, to_string}
use simple_dnsd.Name.Presentation.{parse-to_string}
use simple_dnsd.Wire.{decode_from, decode_name, encode_uncompressed}
use simple_dnsd.Wire.Bounds.{decode_name_bounds, decode_from_fuel}
use simple_dnsd.Wire.RoundTrip.{decode_name-encode_uncompressed}
use simple_dnsd.Record.{DnsHeader, new_header}
use simple_dnsd.Record.RrType
use simple_dnsd.Message.{encode_flags, decode_flags, encode_message}
use simple_dnsd.Message.Header.{decode_flags-encode_flags}
use simple_dnsd.Message.Codec.Size.{bare, encode_message-cut}
use simple_dnsd.Examples.Data.{www, query}

abbrev shouted : DnsName
shouted = record { labels = codes "EXAMPLE" ∷ codes "Com" ∷ [] }

parse-to_string_example : parse (to_string true www) ≡ www
unfolding is_space
parse-to_string_example = parse-to_string www true refl

-- A name, and a name that points into it.
abbrev wire : Bytes
wire = 1 ∷ 97 ∷ 0 ∷ 1 ∷ 98 ∷ 192 ∷ 0 ∷ []

abbrev pointed : DnsName
pointed = record { labels = (98 ∷ []) ∷ (97 ∷ []) ∷ [] }

decode_name_bounds_example : (3 < 7) × (7 ≤ 7)
unfolding decode_name
decode_name_bounds_example = decode_name_bounds wire 3 {n = pointed} {off = 7} refl

decode_from_fuel_example : decode_from 21 8 wire 3 [] ≡ decode_from 21 50 wire 3 []
decode_from_fuel_example = decode_from_fuel 21 8 50 wire 3 [] (omega arith) (omega arith)

decode_name-encode_uncompressed_example :
    (out : Bytes) × (encode_uncompressed (7 ∷ []) www ≡ (true, out))
    × (decode_name (out ++ 8 ∷ []) 1 ≡ some (www, length out))
unfolding is_space
decode_name-encode_uncompressed_example =
    decode_name-encode_uncompressed www (7 ∷ []) (8 ∷ []) refl refl

abbrev referral_header : DnsHeader
referral_header = record new_header { qr = true; rd = true; opcode = 4; rcode = 3 }

decode_flags-encode_flags_example :
    decode_flags new_header (encode_flags referral_header true)
    ≡ record new_header { qr = true; opcode = 4; tc = true; rd = true; rcode = 3 }
decode_flags-encode_flags_example =
    decode_flags-encode_flags referral_header new_header true (omega arith) (omega arith)

abbrev limit : ℕ
limit = 20

encode_message-cut_example :
    (12 ≤ length (encode_message (query www RrType.a) limit).0)
    × (((encode_message (query www RrType.a) limit ≡ encode_message (query www RrType.a) 0)
          × ((encode_message (query www RrType.a) limit).1 ≡ false)
          × ((limit ≡ 0) ⊎ (length (encode_message (query www RrType.a) limit).0 ≤ limit)))
        ⊎ (((encode_message (query www RrType.a) limit).1 ≡ true)
            × ((encode_message (query www RrType.a) limit).0
                ≡ (encode_message (bare (query www RrType.a)) 0).0)
            × (0 < limit)
            × (limit < length (encode_message (query www RrType.a) 0).0)))
encode_message-cut_example = encode_message-cut (query www RrType.a) limit
