-- ===== src/Lib.antt =====
-- damen: the core of the tight transport, its wire format, its command channel, its erasure
-- code, the fragmentation and assembly of its messages, its retries, its cryptography and
-- its queues.
--
-- The program is a gateway (gateway/) over a datagram transport (tight/). The transport puts every
-- message into packets with a 48-byte header and a checksum; it sends data in fragments protected
-- by a Reed-Solomon code, and commands through an ordered channel of their own. The parts below
-- are those that the receive path of tight/src/transport.cpp calls one after the other: it decodes
-- the datagram, hands a command packet to the command channel, and hands a data or parity packet to
-- the reassembler, which calls the erasure code where data fragments are missing. The sender cuts a
-- message with the fragmenter, which calls the erasure code for the parities, and keeps what it sent
-- until a report acknowledges it. A session's key is agreed by X25519 and derived by HKDF, and
-- payloads are encrypted by AES-256-GCM.
--
-- Files and sources:
--   Common              shared types, tests, lists, bits, byte buffers and ordered maps
--   Common/OrdMap       std::map from 32-bit numbers, as an ascending association list
--   Wire/Endian         tight/src/wire_format.hpp: constants and to_be16, to_be32, to_be64
--   Wire/Crc            tight/src/crc32.cpp; Crc/Bitwise and Crc/Errors hold its theorems
--   Wire/PacketType     the packet types of tight/include/tight/types.hpp
--   Wire/Codec          tight/src/packet_codec.cpp; Codec/Layout, Codec/RoundTrip,
--                       Codec/Refused and Codec/Reencode
--   Command             tight/src/command.cpp and the m_cmd_* fields of tight/src/peer.hpp;
--                       Command/Drain, Command/Order, Command/History and Command/Expiry
--   Fec/Gf              the field arithmetic of tight/src/fec.cpp; Gf/Tables, Gf/Field, Gf/Laws
--   Fec/Code            ReedSolomon::encode_into and decode; Code/Encode and Code/Parity
--   Reassembler/Track   the sequence tracking of tight/src/reassembler.cpp; Track/Acked,
--                       Track/Cursor and Track/Reordered
--   Reassembler/Build   the lambda build_msg; Build/Stream and Build/Message
--   Reassembler/Assembly  the rest of handle_data, and try_assemble; Assembly/Within,
--                       Assembly/Delivered and Assembly/Overrun
--   Fragmenter          tight/src/fragmenter.cpp; Fragmenter/Delivery goes through the reassembler.
--                       The number of parities, a formula in floating point, is a parameter.
--   Report              Report::handle of tight/src/report.cpp, from the point where the report has
--                       been read, and the retries of tight/src/peer.hpp; Report/Pending
--   Report/Gaps         Report::build_payload up to the late ratio, which moves the cursor that
--                       Reassembler/Track keeps; Gaps/Passed and Gaps/Events
--   Crypto/Sha256       SHA-256 of tight/src/crypto.cpp; Sha256/Holds is the invariant of the buffered
--                       context, Sha256/Digest the definition of the hash it is compared with
--   Crypto/Hmac         hmac_sha256 and hkdf_sha256
--   Crypto/Aes          the AES-256 block cipher; Aes/Block and Aes/Inverse
--   Crypto/Gcm          the authenticated encryption; Gcm/RoundTrip, Gcm/Refused and Gcm/Counter
--   Crypto/X25519       the key agreement; X25519/Field and X25519/Encoding are the field elements,
--                       Carries, Product, Sums, Power and Bounded their arithmetic as numbers
--   Queue               tight/include/tight/blocking_queue.hpp on a heap of nodes; Queue/Spec is the bounded
--                       queue it promises, Queue/Chain, Obtain, Put and Take the lists of nodes,
--                       Refine, History and Destroy the calls and the destructor
--   Gateway/Channel     gateway/gateway_channel.hpp on the same heap of nodes; Channel/Sent,
--                       Channel/Received and Channel/History
--   Gateway/Board       the devices of gateway/gateway_blackboard.hpp; Board/Sessions,
--                       gateway/gateway_session.hpp, with Sessions/Kept
--
-- Conventions. Numbers are ℕ, with the wrap-around of a machine word written out (u8, u16, u32,
-- u64). A buffer is the list of its bytes; a write past its end is dropped. The host is
-- little-endian: mem16, mem32 and mem64 are the memory image of a word, as memcpy sees it. A false
-- result is none. Times are nanoseconds and are arguments of the calls.
--
-- Bounds and fuel. `drain` of Command runs on as many rounds as there are packets held: each round
-- removes one, so the loop ends by itself before. `find_pivot` and `eliminate` of Fec/Code run on
-- the number of rows that are left, which is the bound of the source's loops. `consume` of
-- Reassembler/Track runs on as many rounds as there are numbers received beyond the cursor; each
-- round removes one. The byte loops of Crypto take at least one byte each round and run on the
-- number of bytes; the padding of a hash runs on 64 rounds, where at most 63 are used; `aes_mul` and
-- `aes_inv` run on the eight digits of a byte.
--
-- `drain_list` of Queue runs on one round more than there are nodes in the list. A heap is a function
-- from addresses, and no address is handed out twice; a read where no node is has no result.
--
-- A call of the queue or of the channel holds its mutex, so a history is a list of calls. A call that would
-- wait answers so, and is tried again when it is woken; `take_for` is modelled after its wait, whose
-- length is left open.
--
-- The block buffers that the source leaves uninitialised, and the random bytes of a private key, are
-- arguments.
--
-- The command channel's map is ordered by number, as std::map is. Each of its calls holds the
-- mutex of the peer throughout, so a history of the channel is a list of calls.
--
-- Not modelled: sockets, threads, logging and the programs' start-up, which are calls of the
-- operating system; the bandwidth estimator, and the accounting of late packets, which work on
-- floating point; and the bytes of a report's payload, the session state machine, the destructor of the
-- channel, the parts of the blackboard that no session uses, and the rest of the gateway. Of the
-- key agreement, that the ladder computes the scalar product of the curve is not stated.
pub mod Common
pub mod Wire
pub mod Command
pub mod Fec
pub mod Reassembler
pub mod Fragmenter
pub mod Report
pub mod Crypto
pub mod Queue
pub mod Gateway
