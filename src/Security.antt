-- ===== src/Security.antt =====
-- internal/security: the tokens, the cipher of the tokens in the database, and the password hashes.
pub mod Base64
pub mod Cipher
pub mod Token
pub mod Jwt
pub mod Argon2
