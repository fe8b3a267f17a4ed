-- ===== src/Access.antt =====
-- Who may call, and how often: internal/auth/request_throttle.go, the login throttle of
-- internal/auth/login.go and the token limits of internal/tokens/issuer.go.
pub mod Throttle
pub mod Logins
pub mod Limiter
pub mod Limits
mod Tests
