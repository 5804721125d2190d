-- ===== src/Rdata.antt =====
-- `contentToRdata` and `rdataToContent` of src/simple-dnsd/protocol/dns.cpp: the two forms of a
-- record's data. The address conversions of the C library are parameters.
mod Pack
mod Unpack
unfoldable pub use Pack.{content_to_rdata, encode_domain_rdata, strip_quotes}
unfoldable pub use Unpack.{rdata_to_content, decode_domain_rdata}
pub use Unpack.{rdata_to_content-tsig}
