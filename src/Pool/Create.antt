-- ===== src/Pool/Create.antt =====
-- `Pool::create` and `Pool::open`: a new pool is empty, and the bytes of a pool open as that pool.
use plasmite.Prelude.{
  ℕ, ◌-◌, ◌≤◌, ◌<◌, ◌≡◌, ◌∙◌, sym, inl, arith, [], refl, ap, IsU32, IsU64, ltb, false,
}
use plasmite.Error.{ok}
use plasmite.Buffer.{Buffer, zeros, store}
use plasmite.Buffer.Laws.{copy_from_slice-ok, store_in, store_out}
use plasmite.Header
use plasmite.Header.{PoolHeader, PoolOptions, header_size, resolved_index_capacity}
use plasmite.Header.Layout.{new-IsPoolHeader, new-zeros, validate-IsPoolHeader}
use plasmite.Header.Codec.{IsEncodable}
use plasmite.Header.Agree.{PoolHeaderAt-agree, encode_lem}
use plasmite.Pool.{Pool, create, open_file}
use plasmite.Pool.Contents.{Contents}
use plasmite.Pool.Append.{header_from_mmap-ok}

-- Where the options give a new header, `create` does not fail, and the pool that it makes holds no
-- message: the map has the size asked for, and starts with that header, which is valid.
pub create_lem :
    (o : PoolOptions) (h : PoolHeader)
    → Header.new o.file_size (resolved_index_capacity o) ≡ ok h
    → IsU64 o.file_size
    → IsU32 (resolved_index_capacity o)
    → (p : Pool) × (create o ≡ ok p)
      × (p.mmap.len ≡ o.file_size)
      × (p.header ≡ h)
      × Contents p.mmap p.header []
unfolding create
create_lem o h made size_u64 capacity_u32 =
    let (valid, oldest, capacity) =
      new-IsPoolHeader o.file_size (resolved_index_capacity o) size_u64 capacity_u32 made in
    let (flags, newest) = new-zeros o.file_size (resolved_index_capacity o) made in
    let encodable : IsEncodable h = record {
      file_size_fits = omega (arith, valid.file_sized);
      index_offset_fits = omega (arith, valid.index_starts);
      index_capacity_fits = omega (arith, capacity);
      ring_offset_fits = omega (arith, valid.ring_ends);
      ring_size_fits = omega (arith, valid.ring_ends);
      flags_fits = omega (arith, flags);
      head_off_fits = omega (arith, valid.head_in, valid.ring_ends);
      tail_off_fits = omega (arith, valid.tail_in, valid.ring_ends);
      tail_next_off_fits = omega (arith, valid.tail_next_in, valid.ring_ends);
      oldest_seq_fits = omega (arith, oldest);
      newest_seq_fits = omega (arith, newest);
    } in
    let (b, encodes, long, at) = encode_lem h encodable in
    let z = zeros o.file_size in
    let m = store z 0 b.len b.byte in
    let room : b.len ≤ z.len = omega (arith, valid.ring_starts, valid.ring_ends) in
    let front : (i : ℕ)
        → i < 104
        → (store m h.index_offset (h.ring_offset - h.index_offset) (λ i. 0)).byte i ≡ b.byte i =
      λ i k.
        store_out m h.index_offset (h.ring_offset - h.index_offset) i (λ i. 0)
          (omega (arith, valid.index_starts))
        ∙ store_in z 0 b.len i b.byte (omega arith) (omega arith)
        ∙ ap b.byte (omega arith) in
    (
      record {
        mmap = store m h.index_offset (h.ring_offset - h.index_offset) (λ i. 0);
        header = h;
      },
      rw (made, encodes, copy_from_slice-ok z 0 header_size b (omega arith) (omega arith)),
      refl,
      refl,
      record {
        sized = size_u64;
        valid = valid;
        encodable = encodable;
        header_at = PoolHeaderAt-agree b.byte _ front h at;
        holds = inl (record {
          oldest_zero = oldest;
          tail_at_head = sym (valid.empty_offsets oldest).0;
          no_messages = refl;
        });
      },
    )

-- Opening the bytes of a pool gives that pool, with the header that is in the bytes.
pub open_file_lem :
    (m : Buffer) (h : PoolHeader) (es : _)
    → Contents m h es
    → open_file m ≡ ok (record { mmap = m; header = h })
unfolding open_file
open_file_lem m h es c = rw (
  long,
  header_from_mmap-ok m h es c,
  (validate-IsPoolHeader h m.len c.encodable.index_capacity_fits
        (omega (arith, c.sized, c.valid.ring_ends))).1
      c.valid,
)
  where
    long : ltb m.len header_size ≡ false
    long = ground (arith, c.valid.ring_starts, c.valid.ring_ends)
