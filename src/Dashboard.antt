-- ===== src/Dashboard.antt =====
-- The dashboard server (dashboard/internal).
pub mod RateLimit
pub mod Auth
