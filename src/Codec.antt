-- ===== src/Codec.antt =====
-- micros/enginesrv/internal/codec/fcodec: the frame format. `Codec.Words` has the big-endian
-- words, `Codec.Crc` the checksum of hash/crc32, `Codec.Frame` the types and the constructors of
-- frames, `Codec.Wire` Encode and Decode; the other children are proofs
-- and examples.
pub mod Words
pub mod Crc
pub mod Frame
pub mod Net
pub mod Wire
pub mod Roundtrip
pub mod Layout
pub mod Partial
pub mod Shapes
pub mod Sound
pub mod Examples
