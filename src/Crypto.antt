-- ===== src/Crypto.antt =====
-- vse/hmac.c and what stands on it: hashing, keys, sealed blobs and one-time codes.
pub mod Sha256
pub mod Hmac
pub mod Keys
pub mod Seal
pub mod Totp
pub mod Measure
mod Tests
