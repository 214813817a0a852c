-- ===== src/Crypto.antt =====
-- The package crypto: Password models crypto/password.go, Bcrypt crypto/bcrypt.go, Token
-- crypto/token.go and Keys crypto/keys.go; Phc, Verify and KeyPairs hold their proofs.
pub mod Password
pub mod Phc
pub mod Verify
pub mod Bcrypt
pub mod Token
pub mod Keys
pub mod KeyPairs
