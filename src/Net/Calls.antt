-- ===== src/Net/Calls.antt =====
-- What src/simple-dnsd/utils/net.cpp asks of the operating system.
use simple_dnsd.Base.{ℕ, Bool, Option, Bytes}

pub data Family : Type 0 where
  inet4 inet6 : Family

pub data Kind : Type 0 where
  stream datagram : Kind

-- `sockaddr_storage`, its port as a number.
pub record Address : Type 0 where
  pub family : Family
  pub host : Bytes
  pub port : ℕ

-- A count of bytes is 0 where the call returns nothing or fails; a flag says that a call succeeds. A
-- call on a descriptor that may be invalid takes an option.
pub record Os (W : Type 0) : Type 0 where
  pub socket : W → Family → Kind → Option ℕ × W
  pub set_reuse : W → ℕ → W
  pub bind : W → ℕ → Address → Bool × W
  pub listen : W → ℕ → Bool × W
  pub connect : W → ℕ → Address → Bool × W
  pub accept : W → Option ℕ → Option (ℕ × Address) × W
  pub close_socket : W → ℕ → W
  pub socket_name : W → ℕ → Option Address
  pub poll : W → Option ℕ → ℕ → Bool × W
  pub send_to : W → Option ℕ → Address → Bytes → ℕ × W
  pub recv_from : W → Option ℕ → ℕ → Option (Bytes × Address) × W
  pub send : W → ℕ → Bytes → ℕ × W
  pub recv : W → ℕ → ℕ → Bytes × W
  pub resolve : W → Bytes → Bytes → Option Address
  pub is_root : W → Bool
  pub find_user : W → Bytes → Option (ℕ × ℕ)
  pub set_gid : W → ℕ → Bool × W
  pub set_uid : W → ℕ → Bool × W
