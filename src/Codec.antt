-- ===== src/Codec.antt =====
-- internal/teltonika/codec: the Teltonika AVL binary protocol.
pub mod Crc
pub mod Record
pub mod Packet
pub mod Encode
pub mod Detect
pub mod Samples
pub mod Tests
