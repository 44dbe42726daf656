-- ===== src/Tests/Codec.antt =====
-- Headers, their encodings and their checks, at concrete inputs.
use plasmite.Prelude.{ℕ, ◌+◌, ◌%◌, min, ◌≤◌, ◌<◌, ◌≡◌, ◌↔◌, refl, arith, none, some}
use plasmite.Error.{ok}
use plasmite.Buffer.{Buffer, zeros}
use plasmite.Frame
use plasmite.Frame.{FrameHeader, FrameState, frame_total_len, max_payload_abs}
use plasmite.Frame.Size.{frame_total_len_lem}
use plasmite.Frame.Codec
use plasmite.Frame.Codec.{IsFrameHeader}
use plasmite.Header
use plasmite.Header.{
  PoolHeader, PoolOptions, header_size, resolved_index_capacity, write_pool_header,
}
use plasmite.Header.Layout.{IsPoolHeader, validate-IsPoolHeader, new-IsPoolHeader, new-resolved}
use plasmite.Header.Codec.{IsEncodable, PoolHeaderAt, decode-encode_pool, write_pool_header_lem}
use plasmite.Tests.{small_header}

validate-IsPoolHeader_example :
    (Header.validate small_header 8192 ≡ ok tt) ↔ IsPoolHeader small_header 8192
validate-IsPoolHeader_example = validate-IsPoolHeader small_header 8192 (omega arith) (omega arith)

small_new_explicit : Header.new 8192 4 ≡ ok small_header
unfolding Header.new
small_new_explicit = refl

new-IsPoolHeader_example :
    IsPoolHeader small_header 8192
    × (small_header.oldest_seq ≡ 0)
    × (small_header.index_capacity ≡ 4)
new-IsPoolHeader_example =
    new-IsPoolHeader 8192 4 {h = small_header} (omega arith) (omega arith) small_new_explicit

abbrev auto_options : PoolOptions
auto_options = record { file_size = 65536; index_capacity = none }

new-resolved_example :
    (h : PoolHeader) × (Header.new 65536 (resolved_index_capacity auto_options) ≡ ok h)
    × (min 1024 61440 ≤ h.ring_size)
new-resolved_example = new-resolved auto_options refl (omega arith) (omega arith)

small-IsEncodable : IsEncodable small_header
small-IsEncodable = record {
  file_size_fits = omega arith;
  index_offset_fits = omega arith;
  index_capacity_fits = omega arith;
  ring_offset_fits = omega arith;
  ring_size_fits = omega arith;
  flags_fits = omega arith;
  head_off_fits = omega arith;
  tail_off_fits = omega arith;
  tail_next_off_fits = omega arith;
  oldest_seq_fits = omega arith;
  newest_seq_fits = omega arith;
}

decode-encode_pool_example :
    (b : Buffer) × (Header.encode small_header ≡ ok b)
    × (b.len ≡ header_size)
    × (Header.decode b ≡ ok small_header)
decode-encode_pool_example = decode-encode_pool small_header small-IsEncodable

write_pool_header_lem_example :
    (m' : Buffer) × (write_pool_header (zeros 8192) small_header ≡ ok m')
    × (m'.len ≡ 8192)
    × PoolHeaderAt m'.byte small_header
    × ((i : ℕ) → 104 ≤ i → m'.byte i ≡ 0)
write_pool_header_lem_example =
    write_pool_header_lem (zeros 8192) small_header (omega arith) (omega arith) small-IsEncodable

abbrev hello_header : FrameHeader
hello_header = record {
  state = FrameState.committed;
  flags = 0;
  header_len = 64;
  seq = 1;
  timestamp_ns = 1_000;
  payload_len = 5;
  payload_len_xor = 0xFFFF_FFFA;
  crc32c = 0;
}

decode-encode_example :
    (b : Buffer) × (Frame.encode hello_header ≡ ok b)
    × (b.len ≡ 64)
    × (Frame.decode b ≡ ok hello_header)
decode-encode_example = Frame.Codec.decode-encode hello_header (record {
  flags_u32 = omega arith;
  header_len_u32 = omega arith;
  seq_u64 = omega arith;
  timestamp_u64 = omega arith;
  payload_len_u32 = omega arith;
  payload_len_xor_u32 = omega arith;
  crc32c_u32 = omega arith;
})

frame_total_len_lem_example :
    (n : ℕ) × (frame_total_len 64 5 ≡ some n) × (n % 8 ≡ 0) × (5 + 72 ≤ n) × (n < 5 + 80)
frame_total_len_lem_example = frame_total_len_lem 5 (omega arith)
