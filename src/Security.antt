-- ===== src/Security.antt =====
-- src/security: the UUID generators, the Authenticator and the TLS credentials.
pub mod Uuid
pub mod Digest
pub mod Base64
pub mod Authentication
pub mod Credentials
