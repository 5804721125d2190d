-- ===== src/Inet.antt =====
-- `inet_pton` and `inet_ntop` of the C library, which the program calls for addresses.
use simple_dnsd.Base.{Option, [], ◌∷◌, ◌==◌, if◌then◌else◌, Bytes}

-- The bytes of an address in network order, `none` where the call does not return 1; and the text
-- of such bytes.
pub record Inet : Type 0 where
  pub pton4 : Bytes → Option Bytes
  pub pton6 : Bytes → Option Bytes
  pub ntop4 : Bytes → Bytes
  pub ntop6 : Bytes → Bytes

-- `s.c_str()` as the C library reads it: up to the first zero byte.
unfoldable pub c_str : Bytes → Bytes
c_str [] = []
c_str (c ∷ s) = if c == 0 then [] else c ∷ c_str s
