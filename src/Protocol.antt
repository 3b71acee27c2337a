-- ===== src/Protocol.antt =====
-- src/internal/Channel/Protocol: the wire format of the channel.
pub mod ByteOrder
pub mod Flags
pub mod Header
pub mod Ack
pub mod Wire
