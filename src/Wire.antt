-- ===== src/Wire.antt =====
-- coilmq/util/frames.py: frames as bytes, and the buffer that a connection reads them from.
pub mod Bytes
pub mod Stream
pub mod Parse
pub mod Pack
pub mod Buffer
pub mod Lines
mod Number
pub mod Head
mod Length
pub mod RoundTrip
pub mod Packed
mod Reading
pub mod Resume
pub mod Delivery
pub mod Refused
