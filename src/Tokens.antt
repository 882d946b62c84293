-- ===== src/Tokens.antt =====
-- internal/services/otp_service.go and internal/services/magic_link_service.go: secrets that are sent
-- to a person and shown again.
pub mod Texts
pub mod Recovery
pub mod Otp
pub mod Guesses
pub mod MagicLink
