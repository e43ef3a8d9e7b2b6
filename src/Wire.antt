-- ===== src/Wire.antt =====
-- The wire format: tight/src/wire_format.hpp, tight/src/crc32.cpp, tight/src/packet_codec.cpp and
-- the packet header of tight/include/tight/types.hpp.
mod Tests
pub mod Endian
pub mod Crc
pub mod PacketType
pub mod Codec
