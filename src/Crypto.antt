-- ===== src/Crypto.antt =====
-- Encryption of cookies and session data (pkg/crypto).
pub mod Crypter
