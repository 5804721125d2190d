-- ===== src/Files.antt =====
-- The file system, a parameter: what `std::ifstream` reads, what `std::ofstream` leaves, and `mkdir`. A
-- write returns whether the stream was good at its end, and none where the file could not be opened.
use simple_dnsd.Base.{Bool, Option, Bytes}

pub record Files (D : Type 0) : Type 0 where
  pub read : D → Bytes → Option Bytes
  pub write : D → Bytes → Bytes → Option Bool × D
  pub make_dir : D → Bytes → D
