-- ===== src/Security.antt =====
-- nadi/security.py: the base64 helpers and the session tokens.
pub mod Base64
pub mod Jwt
