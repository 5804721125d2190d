-- ===== src/Message/Flags.antt =====
-- The second word of the header.
use simple_dnsd.Base.{ℕ, ◌*◌, ◌/◌, ◌%◌, ◌^◌, bit_and, bit_or, Bool, not, ◌==◌, if◌then◌else◌}
use simple_dnsd.Record.{DnsHeader}

abbrev pub flag : Bool → ℕ → ℕ
flag b mask = if b then mask else 0

-- `flags` of `encodeMessage`; `tc` is the flag that truncation may have set.
unfoldable pub encode_flags : DnsHeader → Bool → ℕ
encode_flags h tc =
    bit_or
      (bit_or
        (bit_or
          (bit_or
            (bit_or
              (bit_or (bit_or (bit_or (flag h.qr 0x8000) (h.opcode * 2 ^ 11)) (flag h.aa 0x0400))
                (flag tc 0x0200))
              (flag h.rd 0x0100))
            (flag h.ra 0x0080))
          (flag h.ad 0x0020))
        (flag h.cd 0x0010))
      (bit_and h.rcode 0x0f)
    % 2 ^ 16

abbrev pub has_flag : ℕ → ℕ → Bool
has_flag flags mask = not (bit_and flags mask == 0)

-- The fields that `decodeMessage` reads from the second word, written over those of `h`.
unfoldable pub decode_flags : DnsHeader → ℕ → DnsHeader
decode_flags h flags = record h {
  qr = has_flag flags 0x8000;
  opcode = bit_and (flags / 2 ^ 11) 0x0f;
  aa = has_flag flags 0x0400;
  tc = has_flag flags 0x0200;
  rd = has_flag flags 0x0100;
  ra = has_flag flags 0x0080;
  ad = has_flag flags 0x0020;
  cd = has_flag flags 0x0010;
  rcode = bit_and flags 0x0f;
}
