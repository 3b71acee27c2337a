-- ===== src/Fragmentation.antt =====
-- src/internal/Channel/Fragmentation: fragments put back together into messages.
pub mod Message
pub mod Media
