-- ===== src/Tests.antt =====
-- The theorems at concrete inputs: test data that the tests share.
pub mod Pool
pub mod Codec
pub mod Reading
pub mod Ingest
pub mod Report
pub mod Mcp
pub mod Remote
use plasmite.Prelude.{some}
use plasmite.Header.{PoolHeader, PoolOptions}

-- A pool file of 8 KiB with four index slots.
abbrev pub small_options : PoolOptions
small_options = record { file_size = 8192; index_capacity = some 4 }

abbrev pub small_header : PoolHeader
small_header = record {
  file_size = 8192;
  index_offset = 4096;
  index_capacity = 4;
  ring_offset = 4160;
  ring_size = 4032;
  flags = 0;
  head_off = 0;
  tail_off = 0;
  tail_next_off = 0;
  oldest_seq = 0;
  newest_seq = 0;
}
