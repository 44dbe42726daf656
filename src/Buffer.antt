-- ===== src/Buffer.antt =====
-- Byte buffers: `&[u8]`, `[u8; N]` and the memory map of a pool file (`MmapMut`), with the slices,
-- copies and little-endian reads and writes of src/core/frame.rs and src/core/pool.rs.
-- Only the bytes below `len` belong to a buffer.
pub mod Laws
use plasmite.Prelude.{
  ℕ, zero, suc, ◌+◌, ◌-◌, ◌*◌, ◌/◌, ◌%◌, Bool, ◌&&◌, List, [], ◌∷◌, ltb, leb, ◌==◌, if◌then◌else◌,
  length, get_or, add_u64,
}
use plasmite.Error.{Result, ok, panic, ◌>>=◌}

pub record Buffer : Type 0 where
  pub len : ℕ
  pub byte : ℕ → ℕ

abbrev pub zeros : ℕ → Buffer
zeros n = record { len = n; byte = λ i. 0 }

abbrev pub of_list : List ℕ → Buffer
of_list xs = record { len = length xs; byte = λ i. get_or xs i 0 }

-- The `n` bytes from `p` on.
unfoldable pub bytes_from : (ℕ → ℕ) → ℕ → ℕ → List ℕ
bytes_from f p zero = []
bytes_from f p (suc n) = f p ∷ bytes_from f (p + 1) n

unfoldable pub to_list : Buffer → List ℕ
unfolding bytes_from
to_list b = bytes_from b.byte 0 b.len

-- `&b[start..end]`
unfoldable pub slice : Buffer → ℕ → ℕ → Result Buffer
slice b start end =
    if leb start end && leb end b.len
    then ok (record { len = end - start; byte = λ i. b.byte (start + i) })
    else panic

-- `b` with `n` bytes from `start` on replaced by the first `n` of `f`.
abbrev pub store : Buffer → ℕ → ℕ → (ℕ → ℕ) → Buffer
store b start n f = record b {
  byte = λ i. if leb start i && ltb i (start + n) then f (i - start) else b.byte i;
}

-- `b[start..end].copy_from_slice(src)`
unfoldable pub copy_from_slice : Buffer → ℕ → ℕ → Buffer → Result Buffer
copy_from_slice b start end src =
    if (leb start end && leb end b.len) && end - start == src.len
    then ok (store b start src.len src.byte)
    else panic

-- The `n` little-endian bytes of a number, and the number that `n` bytes from `p` on stand for.
unfoldable pub to_le_bytes : ℕ → ℕ → List ℕ
to_le_bytes zero x = []
to_le_bytes (suc n) x = x % 256 ∷ to_le_bytes n (x / 256)

unfoldable pub from_le_bytes : (ℕ → ℕ) → ℕ → ℕ → ℕ
from_le_bytes f p zero = 0
from_le_bytes f p (suc n) = f p + 256 * from_le_bytes f (p + 1) n

unfoldable pub read_u32 : Buffer → ℕ → Result ℕ
read_u32 b offset = do s ← slice b offset (add_u64 offset 4); ok (from_le_bytes s.byte 0 4)

unfoldable pub read_u64 : Buffer → ℕ → Result ℕ
read_u64 b offset = do s ← slice b offset (add_u64 offset 8); ok (from_le_bytes s.byte 0 8)

unfoldable pub write_u32 : Buffer → ℕ → ℕ → Result Buffer
write_u32 b offset value =
    copy_from_slice b offset (add_u64 offset 4) (of_list (to_le_bytes 4 value))

unfoldable pub write_u64 : Buffer → ℕ → ℕ → Result Buffer
write_u64 b offset value =
    copy_from_slice b offset (add_u64 offset 8) (of_list (to_le_bytes 8 value))
