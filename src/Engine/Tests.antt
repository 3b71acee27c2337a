-- ===== src/Engine/Tests.antt =====
-- NetworkEngine.cpp: a session at work. The congestion window is a natural number here.
use net_link.Common.{ℕ, true, false, [], ◌∷◌, none}
use net_link.Double.{numbers}
use net_link.Discovery.Logic.{PeerInfo}
use net_link.Mailbox.{Mailbox}
use net_link.ReliableLink.{LinkTimings, ReliableLink}
use net_link.ReliableLink.Link.{new_link}
use net_link.Engine.{Peer, NetworkEngine}
use net_link.Engine.Ending.{end_session}
use net_link.Engine.Advancing.{new_peer, answer_hello, advance}
use net_link.Engine.Lives.{answered, advanced, disconnected, IsHeard, Life-IsHeard}

abbrev timings : LinkTimings
timings = record {
  initial_rto = 100;
  min_rto = 20;
  max_rto = 1000;
  peer_timeout = 5000;
  keep_alive = 1000;
  initial_cwnd = 32;
  fixed_cwnd = 0;
}

abbrev info : PeerInfo
info = record { id = 7; display_name = 80 ∷ []; address = []; port = 5555; app_version = [] }

abbrev mailbox : Mailbox
mailbox = record {
  queue_bytes = 1000;
  commands = [];
  ready = [];
  peers = [];
  epochs = 0;
  signalled = false;
  running = true;
  sessions = [];
}

abbrev engine : NetworkEngine
engine = record { name = 81 ∷ []; mailbox = mailbox; events = []; touched = []; ended = [] }

abbrev link : ReliableLink ℕ
unfolding new_link
link = new_link timings 3 11 none

-- A request, accepted without a question, whose application hangs up before it is connected.
abbrev peer : Peer ℕ × NetworkEngine
peer =
    answer_hello false true 0
      (new_peer info (record { ip = record { value = 9 }; port = 5555 }) link, engine)

Life-IsHeard_example : IsHeard engine (advance 2 (end_session 1 peer))
Life-IsHeard_example = Life-IsHeard engine (advance 2 (end_session 1 peer)) (
    advanced 2 (end_session 1 peer) (
      disconnected 1 peer
        (answered info (record { ip = record { value = 9 }; port = 5555 }) link false true 0)))
