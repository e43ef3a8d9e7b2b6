-- ===== src/Reassembler.antt =====
-- tight/src/reassembler.cpp: the tracking of the sequence numbers, and the assembly of messages.
mod Tests
pub mod Track
pub mod Build
pub mod Assembly
