-- ===== src/Wire/PacketType.antt =====
-- tight/include/tight/types.hpp: `enum class PacketType : std::uint8_t`. A type is its byte, and any
-- byte is a value of it.
use damen.Common.{ℕ}

abbrev pub handshake : ℕ
handshake = 0

abbrev pub handshake_ack : ℕ
handshake_ack = 1

abbrev pub online : ℕ
online = 2

abbrev pub heartbeat : ℕ
heartbeat = 3

abbrev pub bye : ℕ
bye = 4

abbrev pub data_packet : ℕ
data_packet = 5

abbrev pub parity : ℕ
parity = 6

abbrev pub ack : ℕ
ack = 7

abbrev pub report : ℕ
report = 8

abbrev pub probe : ℕ
probe = 9

abbrev pub command : ℕ
command = 10
