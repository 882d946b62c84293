-- ===== src/Access.antt =====
-- Who may do what: the tokens of internal/modules/auth/service/auth_service.go and the guards before
-- the handlers, of internal/middlewares and internal/modules/queue/http.
pub mod Sessions
pub mod Rotation
pub mod Owner
pub mod Ownership
pub mod Capacity
pub mod Load
