-- ===== src/ReliableLink/Runs.antt =====
-- ReliableLink.cpp: a link in use. What other threads, the network, the application and the other links
-- of the budget do comes in any order.
use net_link.Common.{
  ℕ, suc, ◌^◌, ◌<◌, ◌≡◌, refl, sym, ap, subst, if◌then◌else◌, Bool, true, false, List, [], ◌++◌,
  append-nil, Bool-cases, inl, inr, Option, none, some,
}
use net_link.Double.{Double}
use net_link.Protocol.Flags.{
  PacketKind, data_kind, ack_kind, ping_kind, beacon_kind, kind, lane, ping_flags, Lane, control,
  reliable, bulk, media, lane_eq,
}
use net_link.Protocol.Header.{PacketHeader, DecodedPacket}
use net_link.Fragmentation.Message.{AssemblyBudget}
use net_link.ReliableLink.{
  OutboundMessage, OutgoingDatagram, DeliveredMessage, Stream, ReliableLink, next, stream_for,
}
use net_link.ReliableLink.Receiving.{mark_ack_due}
use net_link.ReliableLink.Sending.{make_datagram, make_header, supervise, peek, commit}
use net_link.ReliableLink.Answers.{
  retry_stream, build_ack, make_ack, answer, answer_all, peek_ack, commit_ack, set_paused, due_if,
  same, is_empty, head_of, is_due, pend,
}
use net_link.ReliableLink.Timers.{on_timer, ack_stream, dispatch, is_stale, heard, on_packet}
use net_link.ReliableLink.Link.{take_delivered}
use net_link.ReliableLink.Delivery.{Packet, on_lane, Fed}
use net_link.ReliableLink.Quiet.{
  view_refl, IsQuiet, quiet, IsQuiet-refl, IsQuiet-trans, if_IsQuiet, handle_ack-IsQuiet,
}
use net_link.ReliableLink.QuietSends.{commit-IsQuiet, peek-IsQuiet, timer-IsSafe, stream_view}
use net_link.ReliableLink.Orderly.{
  bits_of, view-IsFed, IsLive, IsOrderly, live-IsLogged, quiet-IsLive, quiet-IsOrderly,
  safe-IsOrderly, handle_data-IsLive, handle_media-IsLive, retry-IsLive,
}

-- A Data packet of an acknowledged lane is what the remote sent on that lane under that seq.
abbrev pub IsGenuine : (Lane → ℕ → Option Packet) → DecodedPacket → Type 0
IsGenuine f p =
    kind p.header.flags ≡ data_kind
    → lane_eq (lane p.header.flags) media ≡ false
    → (some (p.header, p.body) ≡ f (lane p.header.flags) p.header.seq) × (suc p.header.seq < 2 ^ 64)

module _ {W : Type 0} ⦃d : Double W⦄ (f : Lane → ℕ → Option Packet) where
  dispatch-IsLive :
      (old : List DeliveredMessage) (t : PacketKind) (l : Lane) (h : PacketHeader) (body : List ℕ)
      (now : ℕ) (k : ReliableLink W)
      → (t ≡ data_kind
          → lane_eq l media ≡ false
          → (some (h, body) ≡ f l h.seq) × (suc h.seq < 2 ^ 64))
      → IsLive f old k
      → IsLive f old (dispatch t l h body now k)
  unfolding dispatch
  dispatch-IsLive old data_kind l h body now k g v = elim (Bool-cases (lane_eq l media)) [
    | inl y ↦ rw y (handle_media-IsLive f old h body k v)
    | inr n ↦ rw n (handle_data-IsLive f old l h body k n (g refl n).0 (g refl n).1 v)
  ]
  dispatch-IsLive old ack_kind l h body now k g v = quiet-IsLive f old k _ (at (k.streams l) refl) v
    where
      at : (o : Option Stream) → k.streams l ≡ o → IsQuiet k (ack_stream l h body now o k)
      at none e = IsQuiet-refl k
      at (some s) e = handle_ack-IsQuiet l h body now s k (stream_view l s k e)
  dispatch-IsLive old ping_kind l h body now k g v =
      quiet-IsLive f old k (mark_ack_due l k) (quiet k (mark_ack_due l k) refl refl refl) v
  dispatch-IsLive old beacon_kind l h body now k g v = v

  -- Whichever branch is taken.
  if_IsOrderly :
      (old : List DeliveredMessage) (c : Bool) (x y : ReliableLink W)
      → (c ≡ true → IsOrderly f old x)
      → (c ≡ false → IsOrderly f old y)
      → IsOrderly f old (if c then x else y)
  if_IsOrderly old true x y a b = a refl
  if_IsOrderly old false x y a b = b refl

  live-IsOrderly :
      (old : List DeliveredMessage) (k : ReliableLink W) → IsLive f old k → IsOrderly f old k
  live-IsOrderly old k v = record { live = λ e. v; logged = live-IsLogged f old k v }

  packet-IsOrderly :
      (old : List DeliveredMessage) (p : DecodedPacket) (now : ℕ) (k : ReliableLink W)
      → (is_stale p.header k ≡ false → IsGenuine f p)
      → IsOrderly f old k
      → IsOrderly f old (on_packet p now k)
  unfolding on_packet
  packet-IsOrderly old p now k g v =
      if_IsOrderly old k.failed k _ (λ y. v)
        (λ alive.
          if_IsOrderly old (is_stale p.header k) _ _
            (λ stale. quiet-IsOrderly f old k _ (quiet k _ refl refl refl) v)
            (λ fresh. live-IsOrderly old _ (
              dispatch-IsLive old (kind p.header.flags) (lane p.header.flags) p.header p.body now k'
                (g fresh) (quiet-IsLive f old k k' (quiet k k' refl refl refl) (v.live alive)))))
    where
      k' : ReliableLink W
      k' = record k {
        remote_stream_id = some p.header.src_stream_id;
        last_received = heard now k.last_received;
      }

  -- The Acks may take what was refused.
  make_ack-IsLive :
      (old : List DeliveredMessage) (l : Lane) (k : ReliableLink W)
      → lane_eq l media ≡ false
      → IsLive f old k
      → IsLive f old (make_ack l k).1
  unfolding make_ack
  make_ack-IsLive old l k e v =
      quiet-IsLive f old tried (build_ack l tried).1
        (quiet tried (build_ack l tried).1 refl refl refl) (at (k.streams l) refl)
    where
      tried : ReliableLink W
      tried = retry_stream l (k.streams l) k

      at : (o : Option Stream) → k.streams l ≡ o → IsLive f old (retry_stream l o k)
      at none is = v
      at (some s) is = retry-IsLive f old l s k e is v

  if_IsLive :
      (old : List DeliveredMessage) (c : Bool) (x y : ReliableLink W)
      → IsLive f old x
      → IsLive f old y
      → IsLive f old (if c then x else y)
  if_IsLive old true x y a b = a
  if_IsLive old false x y a b = b

  answer-IsLive :
      (old : List DeliveredMessage) (l : Lane) (k : ReliableLink W)
      → lane_eq l media ≡ false
      → IsLive f old k
      → IsLive f old (answer l k)
  unfolding answer
  answer-IsLive old l k e v =
      if_IsLive old (is_due l k'.ping_due) pinged k'
        (quiet-IsLive f old k' pinged (quiet k' pinged refl refl refl) pended) pended
    where
      acked : ReliableLink W
      acked = (make_ack l k).1

      k' : ReliableLink W
      k' = if is_due l k.ack_due then pend (make_ack l k).0 acked else k

      pinged : ReliableLink W
      pinged =
          pend (make_datagram (make_header (ping_flags l) 0 k'))
            (record k' { stats = record k'.stats { pings_sent = next k'.stats.pings_sent } })

      pended : IsLive f old k'
      pended =
          if_IsLive old (is_due l k.ack_due) (pend (make_ack l k).0 acked) k
            (quiet-IsLive f old acked (pend (make_ack l k).0 acked)
              (quiet acked (pend (make_ack l k).0 acked) refl refl refl)
              (make_ack-IsLive old l k e v))
            v

  answers-IsLive :
      (old : List DeliveredMessage) (k : ReliableLink W)
      → IsLive f old k
      → IsLive f old (answer_all k)
  unfolding answer_all
  answers-IsLive old k v =
      quiet-IsLive f old all (record all { ack_due = 0; ping_due = 0 })
        (quiet all (record all { ack_due = 0; ping_due = 0 }) refl refl refl)
        (answer-IsLive old bulk two refl
          (answer-IsLive old reliable one refl (answer-IsLive old control k refl v)))
    where
      one : ReliableLink W
      one = answer control k

      two : ReliableLink W
      two = answer reliable one

      all : ReliableLink W
      all = answer bulk two

  peek_ack-IsOrderly :
      (old : List DeliveredMessage) (k : ReliableLink W)
      → IsOrderly f old k
      → IsOrderly f old (peek_ack k).1
  unfolding peek_ack
  peek_ack-IsOrderly old k v =
      peeked k.failed (none, k) (head_of k'.pending_acks, k') (λ y. v)
        (λ alive. live-IsOrderly old k' (
          if_IsLive old (is_empty k.pending_acks) (answer_all k) k
            (answers-IsLive old k (v.live alive)) (v.live alive)))
    where
      k' : ReliableLink W
      k' = if is_empty k.pending_acks then answer_all k else k

      peeked :
          (c : Bool) (x y : Option OutgoingDatagram × ReliableLink W)
          → (c ≡ true → IsOrderly f old x.1)
          → (c ≡ false → IsOrderly f old y.1)
          → IsOrderly f old (if c then x else y).1
      peeked true x y a b = a refl
      peeked false x y a b = b refl

  due-IsQuiet :
      (l : Lane) (o : Option Stream) (k k' : ReliableLink W)
      → IsQuiet k k'
      → IsQuiet k (due_if l o k')
  due-IsQuiet l none k k' q = q
  due-IsQuiet l (some s) k k' q =
      IsQuiet-trans k k' (mark_ack_due l k') q (quiet k' (mark_ack_due l k') refl refl refl)

  paused-IsQuiet : (paused : Bool) (k : ReliableLink W) → IsQuiet k (set_paused paused k)
  unfolding set_paused
  paused-IsQuiet paused k = if_IsQuiet (same k.paused paused) k k _ (IsQuiet-refl k) (
      due-IsQuiet bulk (k.streams bulk) k _ (
        due-IsQuiet reliable (k.streams reliable) k (record k { paused = paused })
          (quiet k _ refl refl refl)))

  -- What is taken out counts as delivered.
  taken-IsOrderly :
      (old : List DeliveredMessage) (k : ReliableLink W)
      → IsOrderly f old k
      → IsOrderly f (old ++ k.delivered) (record k { delivered = [] })
  taken-IsOrderly old k v = record {
    live = λ alive l e.
        let (n, o) = v.live alive l e in
        (
          n,
          view-IsFed (f l) l (bits_of l) n (stream_for l k) (stream_for l k) _ _
              (view_refl (stream_for l k)) (all l) o,
        );
    logged = λ l e.
        let (n, a, fed) = v.logged l e in
        (n, a, subst (λ out. Fed (f l) l n a out) (sym (all l)) fed);
  }
    where
      all : (l : Lane) → on_lane l ((old ++ k.delivered) ++ []) ≡ on_lane l (old ++ k.delivered)
      all l = ap (on_lane l) (append-nil (old ++ k.delivered))

-- What may happen to a link.
pub data Event : Type 0 where
  arrives : DecodedPacket → ℕ → Event
  peeks : Lane → Option OutboundMessage → Event
  commits : Lane → ℕ → Event
  peeks_ack commits_ack takes : Event
  pauses : Bool → Event
  ticks supervises : ℕ → Event
  shares : Option AssemblyBudget → Event

-- With what was taken out of the link so far. `shares` is what other links do to the budget.
pub run :
    {W : Type 0}
    → ⦃d : Double W⦄ → Event
    → List DeliveredMessage × ReliableLink W
    → List DeliveredMessage × ReliableLink W
run (arrives p now) (old, k) = (old, on_packet p now k)
run (peeks l offered) (old, k) = (old, (peek l offered k).1.1)
run (commits l now) (old, k) = (old, commit l now k)
run peeks_ack (old, k) = (old, (peek_ack k).1)
run commits_ack (old, k) = (old, commit_ack k)
run takes (old, k) = (old ++ (take_delivered k).0, (take_delivered k).1)
run (pauses paused) (old, k) = (old, set_paused paused k)
run (ticks now) (old, k) = (old, on_timer now k)
run (supervises now) (old, k) = (old, supervise now k)
run (shares budget) (old, k) = (old, record k { budget = budget })

-- The network may lose, repeat and reorder packets, and it may bring those of other streams, but what it
-- brings of the stream that the link talks to is what the remote sent.
abbrev pub IsAllowed : {W : Type 0} → (Lane → ℕ → Option Packet) → Event → ReliableLink W → Type 0
IsAllowed f (arrives p now) k = is_stale p.header k ≡ false → IsGenuine f p
IsAllowed f other k = Unit

module _ {W : Type 0} ⦃d : Double W⦄ (f : Lane → ℕ → Option Packet) where
  -- Whatever happens to a link, each of its acknowledged lanes stays in order: it has taken the packets
  -- of the remote with the seqs 1 to some n, each exactly once and in this order, it buffers only packets
  -- as they were sent, and what it has delivered is what those n packets complete.
  pub run-IsOrderly :
      (e : Event) (old : List DeliveredMessage) (k : ReliableLink W)
      → IsAllowed f e k
      → IsOrderly f old k
      → IsOrderly f (run e (old, k)).0 (run e (old, k)).1
  unfolding run commit_ack take_delivered
  run-IsOrderly (arrives p now) old k a v = packet-IsOrderly f old p now k a v
  run-IsOrderly (peeks l offered) old k a v = quiet-IsOrderly f old k _ (peek-IsQuiet l offered k) v
  run-IsOrderly (commits l now) old k a v = quiet-IsOrderly f old k _ (commit-IsQuiet l now k) v
  run-IsOrderly peeks_ack old k a v = peek_ack-IsOrderly f old k v
  run-IsOrderly commits_ack old k a v = quiet-IsOrderly f old k _ (quiet k _ refl refl refl) v
  run-IsOrderly takes old k a v = taken-IsOrderly f old k v
  run-IsOrderly (pauses paused) old k a v = quiet-IsOrderly f old k _ (paused-IsQuiet f paused k) v
  run-IsOrderly (ticks now) old k a v = safe-IsOrderly f old k _ (timer-IsSafe now k) v
  run-IsOrderly (supervises now) old k a v =
      quiet-IsOrderly f old k (supervise now k) (quiet k _ refl refl refl) v
  run-IsOrderly (shares budget) old k a v =
      quiet-IsOrderly f old k (record k { budget = budget }) (quiet k _ refl refl refl) v
