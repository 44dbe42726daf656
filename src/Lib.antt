-- ===== src/Lib.antt =====
-- Verification of plasmite, a message pool in one memory-mapped file.
--
-- A pool is a file with a 4096-byte header, an index of 16-byte slots, and a ring of frames. A writer
-- takes the file's lock, plans where the next frame goes and which old frames are dropped for it, writes
-- the frame, its index slot and the header; readers walk the frames with a cursor, or look one up by its
-- sequence number. The parts and the files that model them, with paths from the repository's root:
--
--   Prelude   shared: tests on numbers, lists, 64-bit words, exclusive or
--   Error     src/core/error.rs: kinds, errors, exit codes, and the results of fallible calls. A result is
--             `ok`, `err`, `panic` (a slice out of range) or `stuck` (a loop that goes on)
--   Buffer    byte buffers, the memory map among them: slices, copies, little-endian reads and writes
--   Frame     src/core/frame.rs: frame header, encoding, validation, sizes
--   Header    src/core/pool.rs: PoolHeader and PoolOptions; src/core/format.rs
--   Cursor    src/core/cursor.rs: read_frame_at and Cursor::next
--   Ring      the layout of the ring as docs/record/architecture.md has it, written independently of the
--             code: which messages stand in the bytes from the tail round to the head
--   Plan      src/core/plan.rs: plan_append with its helpers
--   Pool      src/core/pool.rs: create, open, append and its writes, get
--   Cache     src/core/pool.rs: SeqOffsetCache and get_with_cache
--   Metrics   src/core/pool.rs: info and its metrics
--   Stream    src/api/message.rs: Tail and Replay
--   Report    src/api/validation.rs: the report on the state of a pool
--   Mcp       src/mcp.rs: JSON-RPC requests and their dispatch, the choice of a tool, the messages that the
--             reading tool gives;
--             src/serve.rs: the access mode of the MCP server over HTTP
--   Serve     src/serve.rs: the checks of the server's configuration, and the handlers for pools and
--             messages
--   Wire      src/serve.rs and src/api/remote.rs: errors and Lite3 frames from the server to the client
--   Retry     src/main.rs: calls that are repeated
--   Text      what the program uses of Rust's strings: lengths and slices in bytes, trimming, UTF-8
--   Ingest    src/ingest.rs: the input of `feed` in its modes, with failures and snippets
--   Tests     the theorems at concrete inputs
--
-- How they interact: Plan reads frames of Frame from a Buffer and plans a Header; Pool applies the plan;
-- Cursor reads what Pool wrote; Cache and Stream call Pool and Cursor.
-- Ingest stands in front of Pool: its client appends the values. Ring says what the bytes mean, and
-- Pool/Contents ties the map, the header and a list of messages together, and Plan/Holds says the same of
-- the variables of the loop that makes space. Below Plan, the modules Step and Dropped are about one round
-- of that loop, Loop about all of it, Placed, Place, TailNext and Seat about the placement of the frame, and
-- Append about `plan_append`. Below Pool, Writes, Slot, Marker and Apply are about the writes, Append and Refine
-- about an append (Append/Flush about what it flushes), Create and Reject about new pools and refused payloads, and Lookup, Found, Absent and Oldest about
-- reading. Below Ring, Run, Agree and Read are about sound rings, Total and Next about reads of arbitrary bytes.
-- Below Report, Scan is the code, Ends and Total are about arbitrary bytes, Walk and Sound about sound
-- pools. Below Ingest, Jsonl, Seq, Events and Auto are its modes and Snippet the cut texts; Account,
-- Counted, Pieces and Skipped are about what the modes count, how they read, and what they lose.
-- Below Mcp/Read, Finds says which messages are wanted, Wanted and Reference are about the loop, and Answer
-- ties both. Serve and Mcp stand in front of the client, which is an interface to both, and Wire takes the errors
-- that the handlers of Serve answer to the remote client.
--
-- Numbers: all integers are natural numbers, and `u64` and `usize` additions wrap at 2 ^ 64, as in a
-- release build on a 64-bit machine; checked and saturating methods are written out.
--
-- Loops: the loop that makes space runs on `ring_size + 1` rounds, and each round but the last shortens the
-- stretch from the tail to the head, so they are enough. Cursor::next runs two rounds: a wrap marker sends it to
-- offset 0, where a sound ring has none. The walks of get, get_with_cache and Replay are unbounded in the
-- source; here they take a number of rounds and are `stuck` after it. A tail takes the list of what its
-- rounds see. The scan of Report takes
-- max_frames + 2 rounds, each of which is one of its steps, and the source stops after max_frames. The loops of Ingest take the pieces or the lines that the reader gives. Retry takes
-- retries + 1 rounds, which are enough for less than 2 ^ 32 - 1 retries, where the source's count of
-- attempts does not wrap.
--
-- Not modelled: the file system, locks, flushing and notification (a call takes the outcomes), the
-- clock and the printing of times, the Lite3 payload library, serde_json's parser and bstr's lossy decoding
-- (parameters of Ingest), the asynchronous HTTP service and its tails, the tools of MCP less the window
-- of the reading one, and the arguments of the command line. One call sees
-- one state of the map: torn reads under a concurrent writer are outside the model.
pub mod Prelude
pub mod Error
pub mod Buffer
pub mod Frame
pub mod Header
pub mod Cursor
pub mod Ring
pub mod Plan
pub mod Pool
pub mod Cache
pub mod Metrics
pub mod Stream
pub mod Report
pub mod Text
pub mod Ingest
pub mod Mcp
pub mod Wire
pub mod Retry
pub mod Serve
pub mod Tests
