-- ===== src/Stadistics.antt =====
-- src/stadistics.c and include/stadistics.h: counters of connections and of bytes sent.
pub mod Counts
use pdc_20221c.Prelude.{ℕ, ◌+◌, ◌-◌, ◌%◌, ◌^◌, ltb, if◌then◌else◌}

-- `UINT16_MAX` and `UINT32_MAX`
abbrev pub uint16_max : ℕ
uint16_max = 2 ^ 16 - 1

abbrev pub uint32_max : ℕ
uint32_max = 2 ^ 32 - 1

pub record Stadistics : Type 0 where
  pub total_connections : ℕ
  pub concurrent_connections : ℕ
  pub bytes_sent : ℕ

unfoldable pub stadistics_init : Stadistics
stadistics_init = record { total_connections = 0; concurrent_connections = 0; bytes_sent = 0 }

unfoldable pub stadistics_increase_concurrent : Stadistics → Stadistics
stadistics_increase_concurrent s = record s {
  concurrent_connections =
      if ltb s.concurrent_connections uint16_max
      then s.concurrent_connections + 1
      else s.concurrent_connections;
  total_connections =
      if ltb s.total_connections uint16_max then s.total_connections + 1 else s.total_connections;
}

unfoldable pub stadistics_decrease_concurrent : Stadistics → Stadistics
stadistics_decrease_concurrent s =
    if ltb 0 s.concurrent_connections
    then record s { concurrent_connections = s.concurrent_connections - 1 }
    else s

-- The sum for the test has 64 bits, the counter has 32.
unfoldable pub stadistics_increase_bytes_sent : ℕ → Stadistics → Stadistics
stadistics_increase_bytes_sent bytes s =
    if ltb ((s.bytes_sent + bytes) % 2 ^ 64) uint32_max
    then record s { bytes_sent = (s.bytes_sent + bytes) % 2 ^ 32 }
    else s

unfoldable pub get_concurrent_connections : Stadistics → ℕ
get_concurrent_connections s = s.concurrent_connections

unfoldable pub get_total_connections : Stadistics → ℕ
get_total_connections s = s.total_connections

unfoldable pub get_bytes_sent : Stadistics → ℕ
get_bytes_sent s = s.bytes_sent
