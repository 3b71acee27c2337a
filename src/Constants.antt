-- ===== src/Constants.antt =====
-- src/internal/TransportConstants.h: the fixed numbers of the transport, times in milliseconds.
use net_link.Common.{ℕ, ◌*◌}

-- Upper bound for a single message, and for one that is sent without acknowledgement.
abbrev pub max_message_payload : ℕ
max_message_payload = 16 * 1024 * 1024

abbrev pub max_media_payload : ℕ
max_media_payload = 64 * 1024

-- The largest datagram that an engine puts on the wire.
abbrev pub max_datagram_size : ℕ
max_datagram_size = 1200

abbrev pub media_assembly_slots : ℕ
media_assembly_slots = 4

-- Data packets of a lane that may be unacknowledged at the same time.
abbrev pub control_window : ℕ
control_window = 32

abbrev pub reliable_window : ℕ
reliable_window = 256

abbrev pub bulk_window : ℕ
bulk_window = 256

-- Reliable and Bulk packets on the wire.
abbrev pub min_congestion_window : ℕ
min_congestion_window = 8

abbrev pub max_congestion_window : ℕ
max_congestion_window = 256

abbrev pub fast_retransmit_threshold : ℕ
fast_retransmit_threshold = 3

abbrev pub min_pause_probe_interval : ℕ
min_pause_probe_interval = 50
