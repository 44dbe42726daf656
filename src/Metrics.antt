-- ===== src/Metrics.antt =====
-- `Pool::info` of src/core/pool.rs and the metrics in it.
-- The clock and the printing of a time are not the program's: a call takes `now_ns` and `format_time`.
pub mod Laws
use plasmite.Prelude.{
  ℕ, ◌*◌, ◌/◌, Option, none, some, ◌==◌, if◌then◌else◌, String, saturating_sub, saturating_add,
  saturating_mul,
}
use plasmite.Error.{Result, ok, ◌>>=◌}
use plasmite.Header.{PoolHeader, index_slot_bytes}
use plasmite.Cursor.{FrameRef, header_from_mmap}
use plasmite.Pool
use plasmite.Pool.{Pool, Bounds, bounds_from_header, used_ring_bytes}
use mathlib.Core.Option

pub record PoolUtilization : Type 0 where
  pub used_bytes : ℕ
  pub free_bytes : ℕ
  pub used_percent_hundredths : ℕ

pub record PoolAgeMetrics : Type 0 where
  pub oldest_time : Option String
  pub newest_time : Option String
  pub oldest_age_ms : Option ℕ
  pub newest_age_ms : Option ℕ

pub record PoolMetrics : Type 0 where
  pub message_count : ℕ
  pub seq_span : ℕ
  pub utilization : PoolUtilization
  pub age : PoolAgeMetrics

pub record PoolInfo : Type 0 where
  pub file_size : ℕ
  pub index_offset : ℕ
  pub index_capacity : ℕ
  pub index_size_bytes : ℕ
  pub ring_offset : ℕ
  pub ring_size : ℕ
  pub bounds : Bounds
  pub metrics : Option PoolMetrics

unfoldable pub message_count_of : Option ℕ → Option ℕ → ℕ
message_count_of (some oldest) (some newest) = saturating_add (saturating_sub newest oldest) 1
message_count_of _ _ = 0

unfoldable pub utilization_of : PoolHeader → PoolUtilization
utilization_of header =
    let used_bytes = used_ring_bytes header in
    record {
      used_bytes = used_bytes;
      free_bytes = saturating_sub header.ring_size used_bytes;
      used_percent_hundredths =
          if header.ring_size == 0 then 0 else saturating_mul used_bytes 10_000 / header.ring_size;
    }

-- `self.get(seq).ok().map(..)`
abbrev pub timestamp_of : Result FrameRef → Option ℕ
timestamp_of (ok frame) = some frame.timestamp_ns
timestamp_of _ = none

unfoldable pub frame_timestamp_ns_for_seq : Pool → ℕ → Option ℕ
frame_timestamp_ns_for_seq p seq = timestamp_of (Pool.get p seq)

unfoldable pub boundary_timestamps : Pool → Option ℕ → Option ℕ → Option ℕ × Option ℕ
boundary_timestamps p (some oldest) (some newest) =
    if oldest == newest
    then (let ts = frame_timestamp_ns_for_seq p oldest in (ts, ts))
    else (frame_timestamp_ns_for_seq p oldest, frame_timestamp_ns_for_seq p newest)
boundary_timestamps p _ _ = (none, none)

unfoldable pub metrics_from_header :
    ℕ → (ℕ → Option String) → Pool → PoolHeader → Bounds → PoolMetrics
metrics_from_header now_ns format_time p header bounds =
    let message_count = message_count_of bounds.oldest_seq bounds.newest_seq in
    let (oldest_ns, newest_ns) = boundary_timestamps p bounds.oldest_seq bounds.newest_seq in
    let age_ms = λ (ts : ℕ). saturating_sub now_ns ts / 1_000_000 in
    record {
      message_count = message_count;
      seq_span = message_count;
      utilization = utilization_of header;
      age = record {
        oldest_time = Option.bind oldest_ns format_time;
        newest_time = Option.bind newest_ns format_time;
        oldest_age_ms = Option.map age_ms oldest_ns;
        newest_age_ms = Option.map age_ms newest_ns;
      };
    }

unfoldable pub info : ℕ → (ℕ → Option String) → Pool → Result PoolInfo
info now_ns format_time p = do
  header ← header_from_mmap p.mmap
  let bounds = bounds_from_header header
  ok (record {
    file_size = header.file_size;
    index_offset = header.index_offset;
    index_capacity = header.index_capacity;
    index_size_bytes = header.index_capacity * index_slot_bytes;
    ring_offset = header.ring_offset;
    ring_size = header.ring_size;
    bounds = bounds;
    metrics = some (metrics_from_header now_ns format_time p header bounds);
  })
