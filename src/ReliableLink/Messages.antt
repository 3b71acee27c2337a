-- ===== src/ReliableLink/Messages.antt =====
-- ReliableLink.cpp and MessageAssembler.cpp together: the packets of a lane carry messages.
use net_link.Common.{
  ℕ, zero, suc, ◌+◌, ◌≤◌, ◌<◌, ◌≡◌, ◌⊎◌, inl, inr, refl, sym, ap, ap₂, ◌∙◌, subst, true, false,
  List, [], ◌∷◌, ◌++◌, length, append_assoc, append-nil, Option, none, some, arith,
}
use net_link.Constants.{max_message_payload}
use net_link.Double.{Double}
use net_link.Protocol.Flags.{Lane, media, lane_eq, is_fragmented}
use net_link.Protocol.Header.{PacketHeader}
use net_link.Fragmentation.Message.{
  AssemblyBudget, AssembledMessage, MessageAssembler, State, idle, reset, fits_in, reserve_in,
  has_room_for, accept, continue_message,
}
use net_link.Fragmentation.Message.Invariant.{fragments_pos}
use net_link.Fragmentation.Message.Assembly.{
  Packet, IsFragment, Fragments, fragment_count, in_progress, accept_whole, reset-idle,
  fits-has_room_for, accept_first, accept_later, step_inner, step_final,
}
use net_link.ReliableLink.{DeliveredMessage, ReliableLink}
use net_link.ReliableLink.Delivery.{on_lane, Fed, message_of}
use net_link.ReliableLink.Reached.{Reached, delivered-Fed}

-- A message in one packet.
abbrev pub IsWhole : AssembledMessage → Packet → Type 0
IsWhole m (h, body) = (is_fragmented h.flags ≡ false) × (h.tag ≡ m.tag) × (body ≡ m.body)

-- The packets of a message.
abbrev pub Carries : AssembledMessage → List Packet → Type 0
Carries m ps =
    (length m.body ≤ max_message_payload)
    × (((p : Packet) × (ps ≡ p ∷ []) × IsWhole m p) ⊎ (Fragments m 0 ps))

-- Sent under consecutive seqs.
abbrev pub SentAt : (ℕ → Option Packet) → ℕ → List Packet → Type 0
SentAt f seq [] = Unit
SentAt f seq (p ∷ ps) = (f seq ≡ some p) × SentAt f (suc seq) ps

-- From `seq` on, one message after another, and then nothing.
abbrev pub Sends : (ℕ → Option Packet) → ℕ → List AssembledMessage → Type 0
Sends f seq [] = f seq ≡ none
Sends f seq (m ∷ ms) =
    (ps : List Packet) × Carries m ps × SentAt f seq ps × Sends f (seq + length ps) ms

abbrev pub delivered_as : Lane → List AssembledMessage → List DeliveredMessage
delivered_as l [] = []
delivered_as l (m ∷ ms) = record { lane = l; tag = m.tag; body = m.body } ∷ delivered_as l ms

delivered_as-append :
    (l : Lane) (xs ys : List AssembledMessage)
    → delivered_as l (xs ++ ys) ≡ delivered_as l xs ++ delivered_as l ys
delivered_as-append l [] ys = refl
delivered_as-append l (x ∷ xs) ys =
    ap (λ r. record { lane = l; tag = x.tag; body = x.body } ∷ r) (delivered_as-append l xs ys)

-- What comes next, after `n` packets: the start of a message, or more of the message `m`.
abbrev Between : (ℕ → Option Packet) → ℕ → MessageAssembler → List AssembledMessage → Type 0
Between f n a rest = (a ≡ idle) × Sends f (suc n) rest

abbrev Inside : (ℕ → Option Packet) → ℕ → MessageAssembler → List AssembledMessage → Type 0
Inside f n a [] = ⊥
Inside f n a (m ∷ rest) =
    (i : ℕ) × (ps : List Packet) × (length m.body ≤ max_message_payload)
    × (0 < i)
    × (i < fragment_count m)
    × (a ≡ in_progress m i)
    × Fragments m i ps
    × SentAt f (suc n) ps
    × Sends f (suc n + length ps) rest

record IsStage (f : ℕ → Option Packet) (l : Lane) (ms : List AssembledMessage) (n : ℕ)
    (a : MessageAssembler) (out : List DeliveredMessage) : Type 0 where
  finished : List AssembledMessage
  rest : List AssembledMessage
  all : ms ≡ finished ++ rest
  delivered : out ≡ delivered_as l finished
  place : Between f n a rest ⊎ Inside f n a rest

-- What the assembler and the deliveries are after one packet more.
abbrev after : PacketHeader → List ℕ → Option AssemblyBudget → MessageAssembler → MessageAssembler
after h body budget a = (accept h body (budget, a)).1.1

abbrev out :
    Lane
    → List AssembledMessage
    → PacketHeader
    → List ℕ
    → Option AssemblyBudget
    → MessageAssembler
    → List DeliveredMessage
out l finished h body budget a =
    delivered_as l finished ++ message_of l (accept h body (budget, a)).0

module _ (f : ℕ → Option Packet) (l : Lane) (ms : List AssembledMessage) (n : ℕ) (h : PacketHeader)
    (body : List ℕ) (budget : Option AssemblyBudget) (a : MessageAssembler)
    (finished rest : List AssembledMessage) (m : AssembledMessage)
    (all : ms ≡ finished ++ (m ∷ rest)) where
  -- The message is complete.
  completes :
      (s : State)
      → accept h body (budget, a) ≡ (some m, s)
      → s.1 ≡ idle
      → Sends f (suc (suc n)) rest
      → IsStage f l ms (suc n) (after h body budget a) (out l finished h body budget a)
  completes s e e' sends = record {
    finished = finished ++ (m ∷ []);
    rest = rest;
    all = all ∙ sym (append_assoc finished (m ∷ []) rest);
    delivered =
        ap (λ r. delivered_as l finished ++ message_of l r.0) e
        ∙ sym (delivered_as-append l finished (m ∷ []));
    place = inl (ap (λ r. r.1.1) e ∙ e', sends);
  }

  -- A fragment of the message, at its turn.
  continues :
      (i : ℕ) (ps : List Packet) (budget' : Option AssemblyBudget)
      → length m.body ≤ max_message_payload
      → accept h body (budget, a) ≡ continue_message h body (budget', in_progress m i)
      → IsFragment m i h body
      → Fragments m (i + 1) ps
      → SentAt f (suc (suc n)) ps
      → Sends f (suc (suc n) + length ps) rest
      → IsStage f l ms (suc n) (after h body budget a) (out l finished h body budget a)
  continues i [] budget' small e frag last sent sends =
      completes _ (e ∙ step_final m small i h body budget' last frag) refl
        (subst (λ seq. Sends f seq rest) (omega arith) sends)
  continues i ((h', body') ∷ ps) budget' small e frag (more, f', left) sent sends =
      let step = e ∙ step_inner m small i h body budget' more frag in
      record {
        finished = finished;
        rest = m ∷ rest;
        all = all;
        delivered =
            ap (λ r. delivered_as l finished ++ message_of l r.0) step
            ∙ append-nil (delivered_as l finished);
        place = inr (
          i + 1,
          (h', body') ∷ ps,
          small,
          omega arith,
          more,
          ap (λ r. r.1.1) step,
          (more, f', left),
          sent,
          sends,
        );
      }

-- A message whose first packet comes at a time when the budget has room for it.
module _ (f : ℕ → Option Packet) (l : Lane) (ms : List AssembledMessage) (n : ℕ) (h : PacketHeader)
    (body : List ℕ) (is : f (suc n) ≡ some (h, body)) (budget : Option AssemblyBudget)
    (room : has_room_for h budget ≡ true) where
  same_packet : (p : Packet) → f (suc n) ≡ some p → some p ≡ some (h, body)
  same_packet p e = sym e ∙ is

  header_is : (p : Packet) → f (suc n) ≡ some p → p ≡ (h, body)
  header_is p e = let same = same_packet p e in cc

  has_room :
      (m : AssembledMessage)
      → IsFragment m 0 h body
      → fits_in (length m.body) (reset (budget, idle)).0 ≡ true
  has_room m frag =
      ap (λ size. fits_in size (reset (budget, idle)).0) (sym (frag.start_length refl))
      ∙ fits-has_room_for h budget room frag.fragmented frag.index

  first_of :
      (finished rest : List AssembledMessage) (m : AssembledMessage) (ps : List Packet)
      → ms ≡ finished ++ (m ∷ rest)
      → length m.body ≤ max_message_payload
      → Fragments m 0 ps
      → SentAt f (suc n) ps
      → Sends f (suc n + length ps) rest
      → IsStage f l ms (suc n) (after h body budget idle) (out l finished h body budget idle)
  first_of finished rest m [] all small none_left sent sends =
      absurd (omega (arith, none_left, fragments_pos (length m.body)))
  first_of finished rest m (p ∷ ps) all small (more, frag, left) (here, sent) sends =
      let frag' : IsFragment m 0 h body =
        subst (λ q. IsFragment m 0 q.0 q.1) (header_is p here) frag in
      continues f l ms n h body budget idle finished rest m all 0 ps
        (reserve_in (length m.body) (reset (budget, idle)).0).1 small
        (accept_first m small h body (budget, idle) (has_room m frag') frag') frag' left sent
        (subst (λ seq. Sends f seq rest) (omega arith) sends)

  later_of :
      (finished rest : List AssembledMessage) (m : AssembledMessage) (i : ℕ) (ps : List Packet)
      → ms ≡ finished ++ (m ∷ rest)
      → length m.body ≤ max_message_payload
      → 0 < i
      → i < fragment_count m
      → Fragments m i ps
      → SentAt f (suc n) ps
      → Sends f (suc n + length ps) rest
      → IsStage f l ms
          (suc n)
          (after h body budget (in_progress m i))
          (out l finished h body budget (in_progress m i))
  later_of finished rest m i [] all small pos before none_left sent sends =
      absurd (omega (arith, none_left, before))
  later_of finished rest m i (p ∷ ps) all small pos before (more, frag, left) (here, sent) sends =
      let frag' : IsFragment m i h body =
        subst (λ q. IsFragment m i q.0 q.1) (header_is p here) frag in
      continues f l ms n h body budget (in_progress m i) finished rest m all i ps budget small
        (accept_later m small i h body (budget, in_progress m i) pos frag') frag' left sent
        (subst (λ seq. Sends f seq rest) (omega arith) sends)

  whole_of :
      (finished rest : List AssembledMessage) (m : AssembledMessage) (p : Packet) (ps : List Packet)
      → ms ≡ finished ++ (m ∷ rest)
      → ps ≡ p ∷ []
      → IsWhole m p
      → SentAt f (suc n) ps
      → Sends f (suc n + length ps) rest
      → IsStage f l ms (suc n) (after h body budget idle) (out l finished h body budget idle)
  whole_of finished rest m p ps all one whole sent sends =
      let sent' : SentAt f (suc n) (p ∷ []) = subst (λ q. SentAt f (suc n) q) one sent in
      let sends' : Sends f (suc n + 1) rest =
        subst (λ q. Sends f (suc n + length q) rest) one sends in
      let own : IsWhole m (h, body) = subst (λ q. IsWhole m q) (header_is p sent'.0) whole in
      completes f l ms n h body budget idle finished rest m all (reset (budget, idle))
        (accept_whole h body (budget, idle) own.0
          ∙ ap₂ (λ tag bytes. (some (record { tag = tag; body = bytes }), reset (budget, idle)))
              own.1 own.2)
        (reset-idle (budget, idle)) (subst (λ seq. Sends f seq rest) (omega arith) sends')

  step :
      (a : MessageAssembler) (finished rest : List AssembledMessage)
      → ms ≡ finished ++ rest
      → (Between f n a rest ⊎ Inside f n a rest)
      → IsStage f l ms (suc n) (after h body budget a) (out l finished h body budget a)
  step a finished [] all (inl (e, ends)) = absurd (cc (sym ends ∙ is))
  step a finished [] all (inr never) = absurd never
  step a finished (m ∷ rest) all (inl (e, (ps, (small, inl (p, one, whole)), sent, sends))) =
      subst (λ a. IsStage f l ms (suc n) (after h body budget a) (out l finished h body budget a))
        (sym e) (whole_of finished rest m p ps all one whole sent sends)
  step a finished (m ∷ rest) all (inl (e, (ps, (small, inr frags), sent, sends))) =
      subst (λ a. IsStage f l ms (suc n) (after h body budget a) (out l finished h body budget a))
        (sym e) (first_of finished rest m ps all small frags sent sends)
  step a finished (m ∷ rest) all (inr (i, ps, small, pos, before, e, frags, sent, sends)) =
      subst (λ a. IsStage f l ms (suc n) (after h body budget a) (out l finished h body budget a))
        (sym e) (later_of finished rest m i ps all small pos before frags sent sends)

-- Every packet that is taken moves on.
Fed-IsStage :
    (f : ℕ → Option Packet) (l : Lane) (ms : List AssembledMessage) (n : ℕ) (a : MessageAssembler)
    (got : List DeliveredMessage)
    → Sends f 1 ms
    → Fed f l n a got
    → IsStage f l ms n a got
Fed-IsStage f l ms zero a got sends (e, none_yet) = record {
  finished = [];
  rest = ms;
  all = refl;
  delivered = none_yet;
  place = inl (e, sends);
}
Fed-IsStage f l ms (suc n) a got sends
      ((h, body), is, (budget, before, earlier, fed, room, e, e')) =
    let s = Fed-IsStage f l ms n before earlier sends fed in
    let stage = step f l ms n h body (sym is) budget room before s.finished s.rest s.all s.place in
    subst (λ a. IsStage f l ms (suc n) a got) (sym e)
      (subst (λ o. IsStage f l ms (suc n) (after h body budget before) o)
        (sym (e' ∙ ap (λ o. o ++ message_of l (accept h body (budget, before)).0) s.delivered))
        stage)

module _ {W : Type 0} ⦃d : Double W⦄ (f : Lane → ℕ → Option Packet) where
  -- If what the remote sends on an acknowledged lane are the packets of some messages, one message after
  -- another, then whatever else happens, a new link delivers on that lane the first of these messages, up
  -- to some point: in their order, each of them once, and none of them changed.
  pub delivered-prefix :
      {s : List DeliveredMessage × ReliableLink W} (l : Lane) (ms : List AssembledMessage)
      → Reached f s
      → lane_eq l media ≡ false
      → Sends (f l) 1 ms
      → (finished : List AssembledMessage) × (rest : List AssembledMessage) × (ms
          ≡ finished ++ rest)
        × (on_lane l (s.0 ++ s.1.delivered) ≡ delivered_as l finished)
  delivered-prefix {s} l ms r e sends =
      let (n, a, fed) = delivered-Fed f l r e in
      let stage = Fed-IsStage (f l) l ms n a (on_lane l (s.0 ++ s.1.delivered)) sends fed in
      (stage.finished, stage.rest, stage.all, stage.delivered)
