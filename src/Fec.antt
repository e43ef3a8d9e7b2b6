-- ===== src/Fec.antt =====
-- tight/src/fec.cpp: Reed-Solomon erasure coding over GF(2^8).
mod Tests
pub mod Gf
pub mod Code
