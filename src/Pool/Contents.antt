-- ===== src/Pool/Contents.antt =====
-- The messages that a pool holds, as an abstract view of its memory map.
use plasmite.Prelude.{◌+◌, ◌≡◌, List, IsU64}
use plasmite.Buffer.{Buffer}
use plasmite.Header.{PoolHeader}
use plasmite.Header.Layout.{IsPoolHeader}
use plasmite.Header.Codec.{IsEncodable, PoolHeaderAt}
use plasmite.Cursor.{FrameRef}
use plasmite.Plan.{start_space}
use plasmite.Plan.Holds.{Holds}

-- The map is that of a valid pool with the header `h`, and its ring holds `es`, oldest first.
pub record Contents (m : Buffer) (h : PoolHeader) (es : List FrameRef) : Type 0 where
  pub sized : IsU64 m.len
  pub valid : IsPoolHeader h m.len
  pub encodable : IsEncodable h
  pub header_at : PoolHeaderAt m.byte h
  pub holds :
      Holds m.byte h.ring_offset h.ring_size h.head_off (h.newest_seq + 1) (start_space h) es

-- The regions of the file, which an append does not change.
pub record SameRegions (h h' : PoolHeader) : Type 0 where
  pub file_size_same : h'.file_size ≡ h.file_size
  pub index_offset_same : h'.index_offset ≡ h.index_offset
  pub index_capacity_same : h'.index_capacity ≡ h.index_capacity
  pub ring_offset_same : h'.ring_offset ≡ h.ring_offset
  pub ring_size_same : h'.ring_size ≡ h.ring_size
  pub flags_same : h'.flags ≡ h.flags
