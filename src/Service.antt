-- ===== src/Service.antt =====
-- internal/service: sessions, the manager of simulations and retention.
pub mod Sessions
pub mod Manager
