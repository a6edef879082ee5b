-- ===== src/Spb.antt =====
-- stnet/spb.go: the tagged binary format. Values has the Go values and types that the codec walks by
-- reflection, Pack the encoder, Read the primitive reads and the skipping of unknown fields, Unpack and
-- Decode the decoder. Wire describes the format by itself; PackWire holds the encoder against it, and
-- Numbers, Steps, Structs, Decoded, Loops and RoundTrip the decoder.
pub mod Values
pub mod Pack
pub mod Read
pub mod Unpack
pub mod Decode
pub mod Wire
pub mod PackWire
pub mod Steps
pub mod Structs
pub mod Decoded
pub mod Numbers
pub mod Loops
pub mod RoundTrip
pub mod Bounds
pub mod Floats
mod Tests
