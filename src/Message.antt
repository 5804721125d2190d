-- ===== src/Message.antt =====
-- `encodeMessage` and `decodeMessage` of src/simple-dnsd/protocol/dns.cpp.
pub mod Flags
pub mod Codec
pub mod Header
unfoldable pub use Flags.{encode_flags, decode_flags}
unfoldable pub use Codec.{encode_message, decode_message}
