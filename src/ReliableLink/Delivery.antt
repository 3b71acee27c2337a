-- ===== src/ReliableLink/Delivery.antt =====
-- ReliableLink.cpp: what a lane delivers, whatever the network does with its packets.
use net_link.Common.{
  ℕ, zero, suc, ◌^◌, ◌<◌, ◌≡◌, refl, sym, ap, ◌∙◌, if◌then◌else◌, true, false, List, [], ◌∷◌, ◌++◌,
  append_assoc, append-nil, Bool-cases, inl, inr, Option, none, some,
}
use net_link.Protocol.Flags.{Lane, lane_eq}
use net_link.Protocol.Flags.Lanes.{lane_eq_refl}
use net_link.Protocol.Header.{PacketHeader}
use net_link.SequenceBuffer.{find}
use net_link.SequenceBuffer.Slots.{IsValid}
use net_link.Fragmentation.Message.{
  AssemblyBudget, AssembledMessage, MessageAssembler, idle, has_room_for, accept,
}
use net_link.ReliableLink.{DeliveredMessage, BufferedData, Stream, ReliableLink, no_data}
use net_link.ReliableLink.Receiving.{deliver, accept_in_order}

abbrev pub Packet : Type 0
Packet = PacketHeader × List ℕ

-- The messages of one lane.
unfoldable pub on_lane : Lane → List DeliveredMessage → List DeliveredMessage
on_lane l [] = []
on_lane l (m ∷ ms) = if lane_eq m.lane l then m ∷ on_lane l ms else on_lane l ms

pub on_lane-append :
    (l : Lane) (xs ys : List DeliveredMessage) → on_lane l (xs ++ ys) ≡ on_lane l xs ++ on_lane l ys
unfolding on_lane
on_lane-append l [] ys = refl
on_lane-append l (x ∷ xs) ys = elim (Bool-cases (lane_eq x.lane l)) [
  | inl e ↦ rw e (ap (λ r. x ∷ r) (on_lane-append l xs ys))
  | inr e ↦ rw e (on_lane-append l xs ys)
]

abbrev pub message_of : Lane → Option AssembledMessage → List DeliveredMessage
message_of l none = []
message_of l (some m) = record { lane = l; tag = m.tag; body = m.body } ∷ []

pub on_lane-message_of :
    (l : Lane) (m : Option AssembledMessage) → on_lane l (message_of l m) ≡ message_of l m
unfolding on_lane
on_lane-message_of l none = refl
on_lane-message_of l (some m) = rw (lane_eq_refl l)

pub on_lane-other :
    (l l' : Lane) (m : Option AssembledMessage)
    → lane_eq l l' ≡ false
    → on_lane l' (message_of l m) ≡ []
unfolding on_lane
on_lane-other l l' none e = refl
on_lane-other l l' (some m) e = rw e

-- One packet more, at a time when the budget has room for it.
abbrev pub Feeds :
    Lane
    → Packet
    → (MessageAssembler → List DeliveredMessage → Type 0)
    → MessageAssembler
    → List DeliveredMessage
    → Type 0
Feeds l p Earlier a out =
    (budget : Option AssemblyBudget) × (before : MessageAssembler) × (earlier : List
      DeliveredMessage)
    × Earlier before earlier
    × (has_room_for p.0 budget ≡ true)
    × (a ≡ (accept p.0 p.1 (budget, before)).1.1)
    × (out ≡ earlier ++ message_of l (accept p.0 p.1 (budget, before)).0)

-- What an assembler is, and what it has completed, after the packets with the seqs 1 to n: each of
-- them exactly once, in this order.
abbrev pub Fed : (ℕ → Option Packet) → Lane → ℕ → MessageAssembler → List DeliveredMessage → Type 0
Fed f l zero a out = (a ≡ idle) × (out ≡ [])
Fed f l (suc n) a out = (p : Packet) × (some p ≡ f (suc n)) × Feeds l p (Fed f l n) a out

-- A stream that has taken the packets up to n: what it has delivered is `out`, and what it buffers are
-- packets as they were sent. `f` is what the remote sends under each seq.
pub record IsFed (f : ℕ → Option Packet) (l : Lane) (bits n : ℕ) (s : Stream)
    (out : List DeliveredMessage) : Type 0 where
  pub fed : Fed f l n s.assembler out
  pub expected : s.next_expected ≡ suc n
  pub ring : IsValid no_data bits s.reorder
  pub waiting :
      (seq : ℕ) (b : BufferedData)
      → find no_data seq s.reorder ≡ some b
      → (some (b.header, b.body) ≡ f seq) × (suc seq < 2 ^ 64)

module _ {W : Type 0} where
  -- What a step on the lane leaves alone.
  pub record IsFrame (l : Lane) (k k' : ReliableLink W) : Type 0 where
    pub streams : k'.streams ≡ k.streams
    pub failed : k'.failed ≡ k.failed
    pub others :
        (l' : Lane) → lane_eq l l' ≡ false → on_lane l' k'.delivered ≡ on_lane l' k.delivered

  pub IsFrame-trans :
      (l : Lane) (k k' k'' : ReliableLink W) → IsFrame l k k' → IsFrame l k' k'' → IsFrame l k k''
  IsFrame-trans l k k' k'' a b = record {
    streams = b.streams ∙ a.streams;
    failed = b.failed ∙ a.failed;
    others = λ l' e. b.others l' e ∙ a.others l' e;
  }

  pub IsFrame-refl : (l : Lane) (k : ReliableLink W) → IsFrame l k k
  IsFrame-refl l k = record { streams = refl; failed = refl; others = λ l' e. refl }

  -- A step that delivers nothing.
  pub silent-IsFrame :
      (l : Lane) (k k' : ReliableLink W)
      → k'.streams ≡ k.streams
      → k'.failed ≡ k.failed
      → k'.delivered ≡ k.delivered
      → IsFrame l k k'
  silent-IsFrame l k k' a b c = record {
    streams = a;
    failed = b;
    others = λ l' e. ap (on_lane l') c;
  }

  deliver_adds :
      (l : Lane) (m : Option AssembledMessage) (k : ReliableLink W)
      → (deliver l m k).delivered ≡ k.delivered ++ message_of l m
  unfolding deliver
  deliver_adds l none k = sym (append-nil k.delivered)
  deliver_adds l (some m) k = refl

  pub deliver-IsFrame :
      (l : Lane) (m : Option AssembledMessage) (k k' : ReliableLink W)
      → k'.streams ≡ k.streams
      → k'.failed ≡ k.failed
      → k'.delivered ≡ k.delivered
      → IsFrame l k (deliver l m k')
  unfolding deliver
  deliver-IsFrame l none k k' a b c = record {
    streams = a;
    failed = b;
    others = λ l' e. ap (on_lane l') c;
  }
  deliver-IsFrame l (some m) k k' a b c = record {
    streams = a;
    failed = b;
    others = λ l' e.
        on_lane-append l' k'.delivered (message_of l (some m))
        ∙ ap (λ r. on_lane l' k'.delivered ++ r) (on_lane-other l l' (some m) e)
        ∙ append-nil (on_lane l' k'.delivered)
        ∙ ap (on_lane l') c;
  }

-- `old` is what was delivered before and taken away.
module _ {W : Type 0} (f : ℕ → Option Packet) (l : Lane) (bits : ℕ)
    (old : List DeliveredMessage) where
  abbrev pub delivered_by : ReliableLink W → List DeliveredMessage
  delivered_by k = on_lane l (old ++ k.delivered)

  abbrev pub IsOrdered : Stream × ReliableLink W → Type 0
  IsOrdered (s, k) = (n : ℕ) × IsFed f l bits n s (delivered_by k)

  -- What a step on the lane does to the stream, and leaves alone in the link `k`.
  abbrev pub Keeps : ReliableLink W → Stream × ReliableLink W → Type 0
  Keeps k r = IsOrdered r × IsFrame l k r.1

  pub delivers :
      (m : Option AssembledMessage) (k k' : ReliableLink W)
      → k'.delivered ≡ k.delivered
      → delivered_by (deliver l m k') ≡ delivered_by k ++ message_of l m
  delivers m k k' e =
      ap (λ d. on_lane l (old ++ d)) (deliver_adds l m k' ∙ ap (λ d. d ++ message_of l m) e)
      ∙ ap (on_lane l) (sym (append_assoc old k.delivered (message_of l m)))
      ∙ on_lane-append l (old ++ k.delivered) (message_of l m)
      ∙ ap (λ r. delivered_by k ++ r) (on_lane-message_of l m)

  module _ (h : PacketHeader) (b : List ℕ) (s : Stream) (k : ReliableLink W) where
    abbrev pub outcome : Option AssembledMessage × Option AssemblyBudget × MessageAssembler
    outcome = let (m, (budget, a)) = accept h b (k.budget, s.assembler) in (m, budget, a)

    abbrev pub link_after : ReliableLink W
    link_after = deliver l outcome.0 (record k { budget = outcome.1 })

    pub accepted :
        has_room_for h k.budget ≡ true
        → accept_in_order l h b (s, k) ≡ (true, record s { assembler = outcome.2 }, link_after)
    unfolding accept_in_order
    accepted e = rw e

    pub refused :
        has_room_for h k.budget ≡ false
        → accept_in_order l h b (s, k)
          ≡ (false, record s { budget_paused = true; refused_length = h.total_length }, k)
    unfolding accept_in_order
    refused e = rw e

    pub feeds :
        (n : ℕ)
        → Fed f l n s.assembler (delivered_by k)
        → some (h, b) ≡ f (suc n)
        → has_room_for h k.budget ≡ true
        → Fed f l (suc n) outcome.2 (delivered_by link_after)
    feeds n fed e room = (
      (h, b),
      e,
      (
        k.budget,
        s.assembler,
        delivered_by k,
        fed,
        room,
        refl,
        delivers outcome.0 k (record k { budget = outcome.1 }) refl,
      ),
    )

    pub link_after-IsFrame : IsFrame l k link_after
    link_after-IsFrame =
        deliver-IsFrame l outcome.0 k (record k { budget = outcome.1 }) refl refl refl
