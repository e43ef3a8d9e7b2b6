-- ===== src/Crypto.antt =====
-- tight/src/crypto.cpp: hashing, key agreement and authenticated encryption.
pub mod Sha256
pub mod Hmac
pub mod Aes
pub mod Gcm
pub mod X25519
mod Tests
