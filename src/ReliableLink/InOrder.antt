-- ===== src/ReliableLink/InOrder.antt =====
-- ReliableLink.cpp, handleData: the packets of a lane are taken in the order of their seqs.
use net_link.Common.{
  ℕ, zero, suc, ◌+◌, ◌%◌, ◌^◌, ◌<◌, ◌≡◌, refl, sym, ap, ◌∙◌, subst, ◌==◌, ltb, leb, if◌then◌else◌,
  Bool, true, false, ◌||◌, not, List, length, Bool-cases, inl, inr, Option, none, some, arith,
  ==_iff,
}
use net_link.Protocol.Flags.{Lane}
use net_link.Protocol.Header.{PacketHeader}
use net_link.SequenceBuffer.{SequenceBuffer, find, contains, insert, erase}
use net_link.SequenceBuffer.Slots.{IsValid}
use net_link.SequenceBuffer.Lookup.{insert_lem, erase_lem}
use net_link.Fragmentation.Message.{has_room_for, fits_in}
use net_link.ReliableLink.{DeliveredMessage, BufferedData, Stream, ReliableLink, no_data, next}
use net_link.ReliableLink.Receiving.{
  mark_ack_due, accept_in_order, drain_one, drain_rounds, drain_reorder_buffer, retry_refused,
  taken_in_order, place_data,
}
use net_link.ReliableLink.Delivery.{
  Packet, IsFed, IsFrame, IsFrame-refl, silent-IsFrame, IsFrame-trans, IsOrdered, Keeps,
  delivered_by, accepted, refused, feeds, outcome, link_after, link_after-IsFrame,
}

next_fits : (n : ℕ) → suc n < 2 ^ 64 → next n ≡ suc n
next_fits n h = omega arith

-- What a refusal writes down.
pub refused-IsFed :
    (f : ℕ → Option Packet) (l : Lane) (bits n : ℕ) (s : Stream) (out : List DeliveredMessage)
    (full : Bool) (size : ℕ)
    → IsFed f l bits n s out
    → IsFed f l bits n (record s { budget_paused = full; refused_length = size }) out
refused-IsFed f l bits n s out full size v = record {
  fed = v.fed;
  expected = v.expected;
  ring = v.ring;
  waiting = v.waiting;
}

-- Without the entry of one seq, the others are as they were.
erased_waiting :
    (f : ℕ → Option Packet) (bits t : ℕ) (b : SequenceBuffer BufferedData)
    → IsValid no_data bits b
    → ((seq : ℕ) (d : BufferedData)
        → find no_data seq b ≡ some d
        → (some (d.header, d.body) ≡ f seq) × (suc seq < 2 ^ 64))
    → (seq : ℕ) (d : BufferedData) → find no_data seq (erase no_data t b).1 ≡ some d
    → (some (d.header, d.body) ≡ f seq) × (suc seq < 2 ^ 64)
erased_waiting f bits t b v w seq d e =
    let found = (erase_lem no_data bits seq t b v).1 in
    w seq d (only_if (seq == t) (find no_data seq b) d (sym found ∙ e))
  where
    only_if :
        (c : Bool) (o : Option BufferedData) (d : BufferedData)
        → (if c then none else o) ≡ some d
        → o ≡ some d
    only_if true o d e = absurd (cc)
    only_if false o d e = e

-- With one packet more, as it was sent.
inserted_waiting :
    (f : ℕ → Option Packet) (bits t : ℕ) (p : BufferedData) (b : SequenceBuffer BufferedData)
    → IsValid no_data bits b
    → (some (p.header, p.body) ≡ f t) × (suc t < 2 ^ 64)
    → ((seq : ℕ) (d : BufferedData)
        → find no_data seq b ≡ some d
        → (some (d.header, d.body) ≡ f seq) × (suc seq < 2 ^ 64))
    → (seq : ℕ) (d : BufferedData) → find no_data seq (insert no_data t p b) ≡ some d
    → (some (d.header, d.body) ≡ f seq) × (suc seq < 2 ^ 64)
inserted_waiting f bits t p b v own w seq d e =
    cases (seq == t) (seq % 2 ^ bits == t % 2 ^ bits) refl
      (sym (insert_lem no_data bits seq t p b v).0 ∙ e)
  where
    cases :
        (c c' : Bool)
        → (seq == t) ≡ c
        → (if c then some p else if c' then none else find no_data seq b) ≡ some d
        → (some (d.header, d.body) ≡ f seq) × (suc seq < 2 ^ 64)
    cases true c' is e =
        let same : p ≡ d = cc in
        let at : t ≡ seq = sym ((==_iff seq t).0 is) in
        subst (λ d. (some (d.header, d.body) ≡ f seq) × (suc seq < 2 ^ 64)) same
          (subst (λ n. (some (p.header, p.body) ≡ f n) × (suc n < 2 ^ 64)) at own)
    cases false true is e = absurd (cc)
    cases false false is e = w seq d e

module _ {W : Type 0} (f : ℕ → Option Packet) (l : Lane) (bits : ℕ)
    (old : List DeliveredMessage) where
  drain_one-Keeps :
      (again : Stream × ReliableLink W → Stream × ReliableLink W)
      → ((r : Stream × ReliableLink W)
          → IsOrdered f l bits old r
          → Keeps f l bits old r.1 (again r))
      → (o : Option BufferedData) (s : Stream) (k : ReliableLink W)
      → find no_data s.next_expected s.reorder ≡ o
      → IsOrdered f l bits old (s, k)
      → Keeps f l bits old k (drain_one again l o (s, k))
  unfolding drain_one
  drain_one-Keeps again keep none s k e v = (v, IsFrame-refl l k)
  drain_one-Keeps again keep (some b) s k e (n, v) =
      elim (Bool-cases (has_room_for b.header k.budget)) [
        | inl room ↦ rw room (
            let (ordered, frame) =
              keep (after, link_after f l bits old b.header b.body s k) (suc n, more room) in
            (
              ordered,
              IsFrame-trans l k (link_after f l bits old b.header b.body s k) _
                  (link_after-IsFrame f l bits old b.header b.body s k) frame,
            ))
        | inr full ↦
            rw full
              ((n, refused-IsFed f l bits n s _ true b.header.total_length v), IsFrame-refl l k)
      ]
    where
      after : Stream
      after = record s {
        assembler = (outcome f l bits old b.header b.body s k).2;
        reorder = (erase no_data s.next_expected s.reorder).1;
        next_expected = next s.next_expected;
      }

      more :
          has_room_for b.header k.budget ≡ true
          → IsFed f l bits
              (suc n)
              after
              (delivered_by f l bits old (link_after f l bits old b.header b.body s k))
      more room = record {
        fed =
            feeds f l bits old b.header b.body s k n v.fed
              ((v.waiting s.next_expected b e).0 ∙ ap f v.expected) room;
        expected = next_fits s.next_expected (v.waiting s.next_expected b e).1 ∙ ap suc v.expected;
        ring = (erase_lem no_data bits 0 s.next_expected s.reorder v.ring).2;
        waiting = erased_waiting f bits s.next_expected s.reorder v.ring v.waiting;
      }

  drain_rounds-Keeps :
      (rounds : ℕ) (s : Stream) (k : ReliableLink W)
      → IsOrdered f l bits old (s, k)
      → Keeps f l bits old k (drain_rounds rounds l (s, k))
  unfolding drain_rounds
  drain_rounds-Keeps zero s k v = (v, IsFrame-refl l k)
  drain_rounds-Keeps (suc rounds) s k v =
      drain_one-Keeps (drain_rounds rounds l) (λ r w. drain_rounds-Keeps rounds r.0 r.1 w)
        (find no_data s.next_expected s.reorder) s k refl v

  pub drain-Keeps :
      (s : Stream) (k : ReliableLink W)
      → IsOrdered f l bits old (s, k)
      → Keeps f l bits old k (drain_reorder_buffer l (s, k))
  unfolding drain_reorder_buffer
  drain-Keeps s k v = drain_rounds-Keeps (suc s.reorder.size) s k v

  -- An answer that is due changes nothing of this.
  due-IsFrame : (k k' : ReliableLink W) → IsFrame l k k' → IsFrame l k (mark_ack_due l k')
  due-IsFrame k k' v = record { streams = v.streams; failed = v.failed; others = v.others }

  pub retry-Keeps :
      (s : Stream) (k : ReliableLink W)
      → IsOrdered f l bits old (s, k)
      → Keeps f l bits old k (retry_refused l (s, k))
  unfolding retry_refused
  retry-Keeps s k (n, v) =
      elim (Bool-cases (not s.budget_paused || not (fits_in s.refused_length k.budget))) [
        | inl stays ↦ rw stays ((n, v), IsFrame-refl l k)
        | inr goes ↦ rw goes (
            let (ordered, frame) =
              drain-Keeps (record s { budget_paused = false }) k
                (n, refused-IsFed f l bits n s _ false s.refused_length v) in
            (ordered, due-IsFrame k _ frame))
      ]

  in_order-Keeps :
      (h : PacketHeader) (body : List ℕ) (n : ℕ) (s : Stream) (k : ReliableLink W)
      → IsFed f l bits n s (delivered_by f l bits old k)
      → some (h, body) ≡ f (suc n)
      → suc (suc n) < 2 ^ 64
      → Keeps f l bits old k (taken_in_order l (accept_in_order l h body (s, k)))
  unfolding taken_in_order
  in_order-Keeps h body n s k v is small = elim (Bool-cases (has_room_for h k.budget)) [
    | inl room ↦ rw (accepted f l bits old h body s k room) (
        let (ordered, frame) =
          drain-Keeps after (link_after f l bits old h body s k) (suc n, more room) in
        (
          ordered,
          IsFrame-trans l k (link_after f l bits old h body s k) _
              (link_after-IsFrame f l bits old h body s k) frame,
        ))
    | inr full ↦
        rw (refused f l bits old h body s k full)
          ((n, refused-IsFed f l bits n s _ true h.total_length v), IsFrame-refl l k)
  ]
    where
      after : Stream
      after = record s {
        assembler = (outcome f l bits old h body s k).2;
        next_expected = next s.next_expected;
      }

      more :
          has_room_for h k.budget ≡ true
          → IsFed f l bits
              (suc n)
              after
              (delivered_by f l bits old (link_after f l bits old h body s k))
      more room = record {
        fed = feeds f l bits old h body s k n v.fed is room;
        expected = ap next v.expected ∙ next_fits (suc n) small;
        ring = v.ring;
        waiting = v.waiting;
      }

  -- The arrival of a packet as it was sent.
  pub place-Keeps :
      (h : PacketHeader) (body : List ℕ) (s : Stream) (k : ReliableLink W)
      → some (h, body) ≡ f h.seq
      → suc h.seq < 2 ^ 64
      → IsOrdered f l bits old (s, k)
      → Keeps f l bits old k (place_data l h body (s, k))
  unfolding place_data
  place-Keeps h body s k is small (n, v) =
      elim (Bool-cases (leb ((s.next_expected + length s.reorder.slots) % 2 ^ 64) h.seq)) [
        | inl far ↦ rw far ((n, v), silent-IsFrame l k _ refl refl refl)
        | inr near ↦
            rw near
              (elim (Bool-cases (ltb h.seq s.next_expected || contains no_data h.seq s.reorder)) [
                | inl again ↦ rw again ((n, v), silent-IsFrame l k _ refl refl refl)
                | inr first ↦ rw first (elim (Bool-cases (h.seq == s.next_expected)) [
                  | inl now ↦ rw now (
                      let at : h.seq ≡ suc n = (==_iff h.seq s.next_expected).0 now ∙ v.expected in
                      let (ordered, frame) =
                        in_order-Keeps h body n s (mark_ack_due l k) v (is ∙ ap f at)
                          (subst (λ m. suc m < 2 ^ 64) at small) in
                      (
                        ordered,
                        IsFrame-trans l k (mark_ack_due l k) _ (due-IsFrame k k (IsFrame-refl l k))
                            frame,
                      ))
                  | inr later ↦ rw later ((n, buffered), silent-IsFrame l k _ refl refl refl)
                ])
              ])
      ]
    where
      buffered :
          IsFed f l bits n
            (record s {
              reorder = insert no_data h.seq (record { header = h; body = body }) s.reorder;
            })
            (delivered_by f l bits old k)
      buffered = record {
        fed = v.fed;
        expected = v.expected;
        ring =
            (insert_lem no_data bits 0 h.seq (record { header = h; body = body }) s.reorder
              v.ring).1;
        waiting =
            inserted_waiting f bits h.seq (record { header = h; body = body }) s.reorder v.ring
              (is, small) v.waiting;
      }
