-- ===== src/Discovery.antt =====
-- src/internal/Discovery: how engines find each other.
pub mod Beacon
pub mod Table
pub mod Logic
