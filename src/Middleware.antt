-- ===== src/Middleware.antt =====
-- server/middleware/middleware.go: the wrappers around the handlers of the public daemons.
pub mod Http
pub mod Wrappers
pub mod Auth
