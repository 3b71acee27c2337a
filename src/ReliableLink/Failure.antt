-- ===== src/ReliableLink/Failure.antt =====
-- ReliableLink.cpp: a link fails when the remote stopped answering, and then does nothing anymore.
use net_link.Double.{Double}
use net_link.ReliableLink.{ReliableLink}
