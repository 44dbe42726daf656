-- ===== src/Wire.antt =====
-- What the HTTP server sends and the remote client reads: errors, and the frames of a Lite3 stream.
pub mod Errors
pub mod Frames
