-- ===== src/Mailbox/Tests.antt =====
-- Mailbox.h: one peer, with one message on the bulk lane.
use net_link.Common.{◌≡◌, ◌++◌, refl, true, false, [], ◌∷◌, arith}
use net_link.Protocol.Flags.{bulk}
use net_link.Discovery.Table.{lookup}
use net_link.Mailbox.{
  settle, settle_found, is_flushed, Mail, Peer, new_peer, with_lane, Mailbox, queued, answered,
  push, push_found, has_room, enqueue, take_mail,
}
use net_link.Mailbox.Queues.{IsValid, with_lane-IsPeer}
use net_link.Mailbox.Steps.{empty-IsLane, takes, step, step-IsValid}
use net_link.Mailbox.Flush.{is_flushed-settle}
use net_link.Mailbox.Fifo.{waiting, waiting-push, Taken, take_mail-Taken}

abbrev letter : Mail
letter = record { tag = 1; body = 7 ∷ 8 ∷ [] }

abbrev mailbox : Mailbox
mailbox = record {
  queue_bytes = 1000;
  peers =
      (
        17,
        record (with_lane bulk (record { queue = letter ∷ []; bytes = 2 }) new_peer) {
          accepted = 1;
          epoch = 1;
          listed = true;
        },
      )
      ∷ [];
  commands = [];
  ready = 17 ∷ [];
  epochs = 1;
  signalled = true;
  running = true;
  sessions = [];
}

mailbox-IsValid : IsValid mailbox
mailbox-IsValid = (
  with_lane-IsPeer 17 bulk (record { queue = letter ∷ []; bytes = 2 }) new_peer
      (refl, (λ e. omega arith), (omega arith, tt)) empty-IsLane,
  tt,
)

step-IsValid_example : IsValid (step (takes 17 bulk) mailbox)
step-IsValid_example = step-IsValid (takes 17 bulk) mailbox tt mailbox-IsValid

pushed : (push 17 bulk letter false mailbox).0 ≡ answered queued false
unfolding push push_found has_room enqueue
pushed = refl

waiting-push_example :
    waiting bulk (lookup 17 (push 17 bulk letter false mailbox).1.peers)
    ≡ waiting bulk (lookup 17 mailbox.peers) ++ (letter ∷ [])
waiting-push_example = waiting-push 17 bulk letter false false mailbox refl pushed

take_mail-Taken_example :
    Taken bulk (waiting bulk (lookup 17 mailbox.peers)) mailbox 17 (take_mail 17 bulk mailbox)
take_mail-Taken_example = take_mail-Taken 17 bulk mailbox

-- Its message was sent and acknowledged.
abbrev sent : Peer
sent = record new_peer { accepted = 1; epoch = 1 }

abbrev sent_mailbox : Mailbox
sent_mailbox = record mailbox { peers = (17, sent) ∷ [] }

settled : (settle 17 sent_mailbox).0 ≡ true
unfolding settle settle_found
settled = refl

is_flushed-settle_example : is_flushed 17 1 1 (settle 17 sent_mailbox).1 ≡ true
is_flushed-settle_example = is_flushed-settle 17 1 1 sent sent_mailbox refl (omega arith) settled
