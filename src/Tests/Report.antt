-- ===== src/Tests/Report.antt =====
-- The report at concrete pools.
use plasmite.Prelude.{
  ℕ, ◌≡◌, ◌≢◌, ◌⊎◌, refl, ap, inl, arith, some, [], ◌∷◌, ◌++◌, map, true, ◌==◌, if◌then◌else◌,
}
use plasmite.Error.{Result, ok, panic}
use plasmite.Buffer.{Buffer, of_list, zeros, from_le_bytes}
use plasmite.Header
use plasmite.Header.{PoolHeader, PoolOptions, resolved_index_capacity}
use plasmite.Header.Layout.{IsPoolHeader}
use plasmite.Pool.{Pool, create, AppendOptions, Durability}
use plasmite.Pool.Contents.{Contents}
use plasmite.Pool.Create.{create_lem}
use plasmite.Pool.Refine.{Appended, append_lem, message_of}
use plasmite.Report.{ValidationReport, Hint, report_ok}
use plasmite.Report.Scan.{spot_check_index_warnings, validate_pool_state_report}
use plasmite.Report.Total.{IsReport, validate_pool_state_report-total, spot_check-cut}
use plasmite.Report.Sound.{report_sound}
use plasmite.Tests.{small_header}

-- A pool file of 8 KiB without an index.
abbrev bare_options : PoolOptions
bare_options = record { file_size = 8192; index_capacity = some 0 }

abbrev bare_header : PoolHeader
bare_header = record small_header { index_capacity = 0; ring_offset = 4096; ring_size = 4096 }

bare_capacity : resolved_index_capacity bare_options ≡ 0
unfolding resolved_index_capacity
bare_capacity = refl

bare_new : Header.new 8192 (resolved_index_capacity bare_options) ≡ ok bare_header
unfolding Header.new resolved_index_capacity
bare_new = refl

bare_pool :
    (p : Pool) × (create bare_options ≡ ok p)
    × (p.mmap.len ≡ 8192)
    × (p.header ≡ bare_header)
    × Contents p.mmap p.header []
bare_pool =
    create_lem bare_options bare_header bare_new (omega arith) (omega (arith, bare_capacity))

bare_field : (field : PoolHeader → ℕ) → field bare_pool.0.header ≡ field bare_header
bare_field field = ap field bare_pool.3

abbrev greeting : Buffer
greeting = of_list (104 ∷ 105 ∷ [])

abbrev greeting_options : AppendOptions
greeting_options = record { timestamp_ns = 1_000; durability = Durability.fast }

abbrev no_flush : ℕ → ℕ → Result (Unit {0})
no_flush offset len = ok tt

greeted : Appended no_flush bare_pool.0 bare_pool.0.header [] greeting greeting_options
greeted =
    append_lem no_flush bare_pool.0 bare_pool.0.header [] greeting greeting_options bare_pool.4
      (omega arith) (omega (arith, bare_field (λ h. h.ring_size))) (omega arith)
      (omega (arith, bare_field (λ h. h.newest_seq)))

greeted_unindexed : spot_check_index_warnings greeted.pool.header greeted.pool.mmap ≡ ok []
unfolding spot_check_index_warnings
greeted_unindexed = rw no_slots refl
  where
    no_slots : (greeted.pool.header.index_capacity == 0) ≡ true
    no_slots = ground (arith, greeted.same_index, bare_field (λ h. h.index_capacity))

report_sound_example :
    (((greeted.left ++ (message_of bare_pool.0.header greeting greeting_options ∷ [])) ≡ [])
      × (validate_pool_state_report greeted.pool.header greeted.pool.mmap "chat"
          ≡ ok (report_ok "chat")))
    ⊎ (((greeted.left ++ (message_of bare_pool.0.header greeting greeting_options ∷ [])) ≢ [])
        × (validate_pool_state_report greeted.pool.header greeted.pool.mmap "chat"
            ≡ ok (record (report_ok "chat") {
              last_good_seq = some greeted.pool.header.newest_seq;
              remediation_hints = map Hint.warning [];
            })))
report_sound_example =
    report_sound greeted.pool.mmap greeted.pool.header _ "chat" [] greeted.contents
      (omega (
        arith,
        greeted.contents.valid.ring_ends,
        greeted.same_ring,
        bare_field (λ h. h.ring_size),
        bare_field (λ h. h.ring_offset),
      ))
      greeted_unindexed

-- A map of zeros is corrupt: no frame stands at its tail.
abbrev blank_header : PoolHeader
blank_header = record bare_header { oldest_seq = 1; newest_seq = 3; head_off = 80 }

validate_pool_state_report-total_example :
    (r : ValidationReport) × (validate_pool_state_report blank_header (zeros 8192) "chat" ≡ ok r)
    × IsReport r
unfolding spot_check_index_warnings
validate_pool_state_report-total_example =
    validate_pool_state_report-total blank_header (zeros 8192) "chat" [] (omega arith) (omega arith)
      refl

-- The first slot points to the last 32 bytes of the ring.
abbrev bad_slot : Buffer
bad_slot = record {
  len = 8192;
  byte = λ i. if i == 4096 then 1 else if i == 4104 then 0xA0 else if i == 4105 then 0x0F else 0;
}

small_header-IsPoolHeader : IsPoolHeader small_header 8192
small_header-IsPoolHeader = record {
  file_sized = refl;
  index_starts = refl;
  ring_starts = refl;
  ring_ends = refl;
  ring_nonempty = omega arith;
  head_in = omega arith;
  tail_in = omega arith;
  tail_next_in = omega arith;
  head_aligned = refl;
  tail_aligned = refl;
  tail_next_aligned = refl;
  seqs_ordered = inl refl;
  empty_offsets = λ e. (refl, refl);
}

spot_check-cut_example : spot_check_index_warnings small_header bad_slot ≡ panic
unfolding from_le_bytes
spot_check-cut_example =
    spot_check-cut small_header bad_slot small_header-IsPoolHeader (omega arith) (omega arith)
      (omega arith) (omega arith) (omega arith)
