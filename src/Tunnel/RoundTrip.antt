-- ===== src/Tunnel/RoundTrip.antt =====
-- The round trip of a tunnel stream, from its parts to the whole.
pub mod Stream
pub mod Transmits
pub mod Time
pub mod Fits
pub mod Collect
pub mod Scalar
pub mod Field
pub mod Column
pub mod Columns
pub mod Record
pub mod Streamed
pub mod Trailer
pub mod Whole
