-- ===== src/Header/Agree.antt =====
-- A pool header stays where the bytes that it is read from do not change; the bytes of `encode`.
use plasmite.Prelude.{ℕ, ◌+◌, ◌≤◌, ◌<◌, ◌≡◌, ◌∙◌, arith}
use plasmite.Error.{ok}
use plasmite.Buffer.{Buffer, zeros, from_le_bytes}
use plasmite.Buffer.Laws.{from_le_bytes_agree, bytes_from_agree}
use plasmite.Header.{PoolHeader, header_size, encode, write_pool_header}
use plasmite.Header.Codec.{IsEncodable, PoolHeaderAt, write_pool_header_lem}

module _ (f g : ℕ → ℕ) (same : (i : ℕ) → i < 104 → g i ≡ f i) where
  field : (p n : ℕ) → p + n ≤ 104 → from_le_bytes g p n ≡ from_le_bytes f p n
  field p n fits = from_le_bytes_agree g f p p n (λ i k. same (p + i) (omega arith))

  pub PoolHeaderAt-agree : (h : PoolHeader) → PoolHeaderAt f h → PoolHeaderAt g h
  PoolHeaderAt-agree h at = record {
    magic_at = bytes_from_agree g f 0 0 4 (λ i k. same (0 + i) (omega arith)) ∙ at.magic_at;
    version_at = field 4 4 (omega arith) ∙ at.version_at;
    endianness_at = same 8 (omega arith) ∙ at.endianness_at;
    file_size_at = field 16 8 (omega arith) ∙ at.file_size_at;
    index_offset_at = field 24 8 (omega arith) ∙ at.index_offset_at;
    index_capacity_at = field 32 4 (omega arith) ∙ at.index_capacity_at;
    ring_offset_at = field 40 8 (omega arith) ∙ at.ring_offset_at;
    ring_size_at = field 48 8 (omega arith) ∙ at.ring_size_at;
    flags_at = field 56 8 (omega arith) ∙ at.flags_at;
    head_off_at = field 64 8 (omega arith) ∙ at.head_off_at;
    tail_off_at = field 72 8 (omega arith) ∙ at.tail_off_at;
    tail_next_off_at = field 80 8 (omega arith) ∙ at.tail_next_off_at;
    oldest_seq_at = field 88 8 (omega arith) ∙ at.oldest_seq_at;
    newest_seq_at = field 96 8 (omega arith) ∙ at.newest_seq_at;
  }

-- `encode` fills the 4096 bytes of a header.
pub encode_lem :
    (h : PoolHeader)
    → IsEncodable h
    → (b : Buffer) × (encode h ≡ ok b) × (b.len ≡ header_size) × PoolHeaderAt b.byte h
unfolding encode write_pool_header
encode_lem h v =
    let (b, writes, long, at, rest) =
      write_pool_header_lem (zeros header_size) h (omega arith) (omega arith) v in
    (b, writes, long, at)
