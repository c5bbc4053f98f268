-- ===== src/Tunnel.antt =====
-- odps/tunnel: the record format of the tunnel service.
pub mod Protowire
pub mod Crc
pub mod StreamWriter
pub mod StreamReader
pub mod Writer
pub mod Reader
pub mod RoundTrip
pub mod Slot
pub mod Pack
pub mod Schema
pub mod Retry
pub mod Session
pub mod Upload
pub mod Arrow
mod Tests
