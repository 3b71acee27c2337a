-- ===== src/Socket.antt =====
-- src/internal/Socket: addresses.
pub mod Address
