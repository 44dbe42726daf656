-- ===== src/Wire/Frames.antt =====
-- The frames of a Lite3 stream: src/serve.rs writes them, and src/api/remote.rs reads them from whatever
-- pieces the connection gives. A read gives the front of the next piece; an empty piece is none, and
-- behind the last one the stream ends or a read fails.
pub mod Carried
use plasmite.Prelude.{
  ℕ, zero, suc, ◌+◌, ◌-◌, ◌*◌, ◌/◌, ◌%◌, ◌^◌, Bool, true, false, Option, none, some, List, [], ◌∷◌,
  ◌++◌, ltb, ◌==◌, length, if◌then◌else◌,
}
use plasmite.Error.{Error, ErrorKind, Result, ok, err, failure, ensure, ◌>>=◌, ◌>>◌}
use plasmite.Cursor.{FrameRef}
use plasmite.Stream.{drop_front}
use plasmite.Ingest.{Reader}
use plasmite.Mcp.Read.Lists.{take_front}

-- `to_be_bytes` and `from_be_bytes` of a number of `n` bytes.
unfoldable pub to_be_bytes : ℕ → ℕ → List ℕ
to_be_bytes zero x = []
to_be_bytes (suc n) x = to_be_bytes n (x / 256) ++ (x % 256 ∷ [])

unfoldable pub from_be_bytes : ℕ → List ℕ → ℕ
from_be_bytes front [] = front
from_be_bytes front (b ∷ bs) = from_be_bytes (front * 256 + b) bs

unfoldable pub encode_lite3_stream_frame : FrameRef → Result (List ℕ)
unfolding to_be_bytes
encode_lite3_stream_frame frame =
    ensure (ltb (length frame.payload) (2 ^ 32)) ErrorKind.usage
      "lite3 payload exceeds max frame length"
    >> ok (
        to_be_bytes 8 frame.seq
        ++ (to_be_bytes 8 frame.timestamp_ns
            ++ (to_be_bytes 4 (length frame.payload) ++ frame.payload)))

-- The reads until `n` more bytes are there: the bytes, and the pieces that are left unless they ran out.
unfoldable pub fill : ℕ → List ℕ → List (List ℕ) → List ℕ × Option (List (List ℕ))
unfolding drop_front
fill n have [] = if n == 0 then (have, some []) else (have, none)
fill n have (piece ∷ pieces) =
    let next = fill (n - length piece) (have ++ piece) pieces in
    if n == 0
    then (have, some (piece ∷ pieces))
    else if ltb n (length piece)
    then (have ++ take_front n piece, some (drop_front n piece ∷ pieces))
    else next

-- Where the pieces have run out behind `have`.
abbrev pub at_end : Bool → List ℕ → Result (Option (List ℕ × Reader))
at_end true have = err (failure ErrorKind.io "failed to read lite3 stream")
at_end false [] = ok none
at_end false (b ∷ have) = err (failure ErrorKind.io "unexpected eof in lite3 stream")

abbrev pub exact_or_eof : Bool → List ℕ × Option (List (List ℕ)) → Result (Option (List ℕ × Reader))
exact_or_eof fails (have, some pieces) = ok (some (have, record { pieces = pieces; fails = fails }))
exact_or_eof fails (have, none) = at_end fails have

unfoldable pub read_exact_or_eof : ℕ → Reader → Result (Option (List ℕ × Reader))
unfolding fill
read_exact_or_eof n reader = exact_or_eof reader.fails (fill n [] reader.pieces)

-- `read_exact`, which fails where the stream ends too.
abbrev pub exact : Bool → List ℕ × Option (List (List ℕ)) → Result (List ℕ × Reader)
exact fails (have, some pieces) = ok (have, record { pieces = pieces; fails = fails })
exact fails (have, none) = err (failure ErrorKind.io "failed to read lite3 payload")

unfoldable pub read_exact : ℕ → Reader → Result (List ℕ × Reader)
unfolding fill
read_exact n reader = exact reader.fails (fill n [] reader.pieces)

pub record RemoteLite3Frame : Type 0 where
  pub seq : ℕ
  pub timestamp_ns : ℕ
  pub payload : List ℕ

-- The frame behind its header of 20 bytes.
unfoldable pub frame_behind : Option (List ℕ × Reader) → Result (Option (RemoteLite3Frame × Reader))
unfolding from_be_bytes read_exact
frame_behind none = ok none
frame_behind (some (header, reader)) =
    let seq = from_be_bytes 0 (take_front 8 header) in
    let timestamp_ns = from_be_bytes 0 (take_front 8 (drop_front 8 header)) in
    let len = from_be_bytes 0 (take_front 4 (drop_front 16 header)) in
    read_exact len reader >>= λ behind.
    ok (some (record { seq = seq; timestamp_ns = timestamp_ns; payload = behind.0 }, behind.1))

-- `next_frame`; a tail that is cancelled has no reader.
unfoldable pub next_frame : Option Reader → Result (Option (RemoteLite3Frame × Reader))
unfolding read_exact_or_eof frame_behind
next_frame none = ok none
next_frame (some reader) = read_exact_or_eof 20 reader >>= frame_behind
