-- ===== src/Auth.antt =====
-- Authentication: the domain's claims and errors (internal/domain/auth/auth.go), the JWT signer and
-- the refresh-token store (internal/infrastructure/auth/jwt.go), the application service
-- (internal/application/auth/service.go), and the request gates
-- (internal/interfaces/http/middleware/middleware.go).
pub mod Defs
pub mod Refresh
pub mod Signer
pub mod Service
pub mod Gate
mod Tests
