-- ===== src/ReliableLink/Orderly.antt =====
-- ReliableLink.cpp: every lane of a link stays in order.
use net_link.Common.{
  ℕ, suc, ◌^◌, ◌<◌, ◌≡◌, refl, sym, ap, ◌∙◌, subst, if◌then◌else◌, false, List, [], ◌++◌,
  Bool-cases, inl, inr, Option, none, some, arith,
}
use net_link.Protocol.Flags.{Lane, control, reliable, bulk, media, lane_eq}
use net_link.Protocol.Flags.Lanes.{lane_eq_sound, lane_eq_symm}
use net_link.Protocol.Header.{PacketHeader}
use net_link.SequenceBuffer.{find, empty_buffer}
use net_link.SequenceBuffer.Slots.{IsValid}
use net_link.SequenceBuffer.Lookup.{empty_buffer-IsValid, find-empty_buffer}
use net_link.Fragmentation.Message.{MessageAssembler}
use net_link.Fragmentation.Media.{accept_media}
use net_link.ReliableLink.{
  DeliveredMessage, Stream, ReliableLink, no_data, or_new, new_stream, stream_for, with_stream,
  window_of,
}
use net_link.ReliableLink.Receiving.{
  retry_refused, place_data, handle_data, handle_media, media_or_new,
}
use net_link.ReliableLink.Delivery.{
  Packet, on_lane, on_lane-append, Fed, IsFed, IsFrame-trans, IsOrdered, Keeps, deliver-IsFrame,
}
use net_link.ReliableLink.InOrder.{retry-Keeps, place-Keeps}
use net_link.ReliableLink.Quiet.{IsSameView, IsQuiet, IsSafe}

-- Each window is a power of two.
abbrev pub bits_of : Lane → ℕ
bits_of l = if lane_eq l control then 5 else 8

window_bits : (l : Lane) → window_of l ≡ 2 ^ bits_of l
window_bits control = refl
window_bits reliable = refl
window_bits bulk = refl
window_bits media = refl

bits_small : (l : Lane) → 2 ^ bits_of l < 2 ^ 64
bits_small control = omega arith
bits_small reliable = omega arith
bits_small bulk = omega arith
bits_small media = omega arith

-- A stream that has the receiving side of another one.
pub view-IsFed :
    (f : ℕ → Option Packet) (l : Lane) (bits n : ℕ) (s t : Stream)
    (out out' : List DeliveredMessage)
    → IsSameView s t
    → out' ≡ out
    → IsFed f l bits n s out
    → IsFed f l bits n t out'
view-IsFed f l bits n s t out out' same e v = record {
  fed =
      subst (λ a. Fed f l n a out') (sym same.assembler)
        (subst (λ o. Fed f l n s.assembler o) (sym e) v.fed);
  expected = same.expected ∙ v.expected;
  ring = subst (IsValid no_data bits) (sym same.reorder) v.ring;
  waiting = λ seq b held. v.waiting seq b (ap (find no_data seq) (sym same.reorder) ∙ held);
}

new_stream-IsFed : (f : ℕ → Option Packet) (l : Lane) → IsFed f l (bits_of l) 0 (new_stream l) []
new_stream-IsFed f l = record {
  fed = (refl, refl);
  expected = refl;
  ring =
      subst (λ n. IsValid no_data (bits_of l) (empty_buffer no_data n)) (sym (window_bits l))
        (empty_buffer-IsValid no_data (bits_of l) (bits_small l));
  waiting = λ seq b held.
      let nothing : none ≡ some b = sym (find-empty_buffer no_data 0 seq (window_of l)) ∙ held in
      absurd (cc);
}

module _ {W : Type 0} (f : Lane → ℕ → Option Packet) where
  -- What the acknowledged lanes have delivered, the link alive or not.
  abbrev pub IsLogged : List DeliveredMessage → ReliableLink W → Type 0
  IsLogged old k =
      (l : Lane)
      → lane_eq l media ≡ false
      → (n : ℕ) × (a : MessageAssembler) × Fed (f l) l n a (on_lane l (old ++ k.delivered))

  abbrev pub IsLive : List DeliveredMessage → ReliableLink W → Type 0
  IsLive old k =
      (l : Lane) → lane_eq l media ≡ false → IsOrdered (f l) l (bits_of l) old (stream_for l k, k)

  pub record IsOrderly (old : List DeliveredMessage) (k : ReliableLink W) : Type 0 where
    pub live : k.failed ≡ false → IsLive old k
    pub logged : IsLogged old k

  pub live-IsLogged :
      (old : List DeliveredMessage) (k : ReliableLink W) → IsLive old k → IsLogged old k
  live-IsLogged old k v l e = let (n, o) = v l e in (n, (stream_for l k).assembler, o.fed)

  pub quiet-IsLive :
      (old : List DeliveredMessage) (k k' : ReliableLink W)
      → IsQuiet k k'
      → IsLive old k
      → IsLive old k'
  quiet-IsLive old k k' q v l e =
      let (n, o) = v l e in
      (
        n,
        view-IsFed (f l) l (bits_of l) n (stream_for l k) (stream_for l k') _ _ (q.views l)
            (ap (λ d. on_lane l (old ++ d)) q.delivered) o,
      )

  pub safe-IsOrderly :
      (old : List DeliveredMessage) (k k' : ReliableLink W)
      → IsSafe k k'
      → IsOrderly old k
      → IsOrderly old k'
  safe-IsOrderly old k k' (same, q) v = record {
    live = λ e. quiet-IsLive old k k' (q e) (v.live (sym (q e).failed ∙ e));
    logged = λ l e.
        let (n, a, fed) = v.logged l e in
        (n, a, subst (λ d. Fed (f l) l n a (on_lane l (old ++ d))) (sym same) fed);
  }

  pub quiet-IsOrderly :
      (old : List DeliveredMessage) (k k' : ReliableLink W)
      → IsQuiet k k'
      → IsOrderly old k
      → IsOrderly old k'
  quiet-IsOrderly old k k' q v = safe-IsOrderly old k k' (q.delivered, λ e. q) v

  -- A step on the lane `l`.
  pub Keeps-IsLive :
      (old : List DeliveredMessage) (l : Lane) (k : ReliableLink W) (s : Stream)
      (k' : ReliableLink W)
      → IsLive old k
      → Keeps (f l) l (bits_of l) old k (s, k')
      → IsLive old (with_stream l s k')
  Keeps-IsLive old l k s k' v (own, frame) l' e = elim (Bool-cases (lane_eq l l')) [
    | inl same ↦
        rw same
          (subst (λ m. IsOrdered (f m) m (bits_of m) old (s, k')) (lane_eq_sound l l' same) own)
    | inr other ↦ rw other (
        let (n, o) = v l' e in
        (
          n,
          view-IsFed (f l') l' (bits_of l') n (stream_for l' k) (or_new l' (k'.streams l')) _ _
              (subst (λ m. IsSameView (stream_for l' k) (or_new l' (m l'))) (sym frame.streams)
                (record { assembler = refl; expected = refl; reorder = refl }))
              (on_lane-append l' old k'.delivered
                ∙ ap (λ d. on_lane l' old ++ d) (frame.others l' other)
                ∙ sym (on_lane-append l' old k.delivered))
              o,
        ))
  ]

  -- A packet as it was sent.
  pub handle_data-IsLive :
      (old : List DeliveredMessage) (l : Lane) (h : PacketHeader) (body : List ℕ)
      (k : ReliableLink W)
      → lane_eq l media ≡ false
      → some (h, body) ≡ f l h.seq
      → suc h.seq < 2 ^ 64
      → IsLive old k
      → IsLive old (handle_data l h body k)
  unfolding handle_data
  handle_data-IsLive old l h body k e is small v =
      let (s', k') = retry_refused l (stream_for l k, k) in
      let (o, frame) = retry-Keeps (f l) l (bits_of l) old (stream_for l k) k (v l e) in
      let (o', frame') = place-Keeps (f l) l (bits_of l) old h body s' k' is small o in
      Keeps-IsLive old l k (place_data l h body (s', k')).0 (place_data l h body (s', k')).1 v
        (o', IsFrame-trans l k k' _ frame frame')

  pub handle_media-IsLive :
      (old : List DeliveredMessage) (h : PacketHeader) (body : List ℕ) (k : ReliableLink W)
      → IsLive old k
      → IsLive old (handle_media h body k)
  unfolding handle_media
  handle_media-IsLive old h body k v l e =
      let (n, o) = v l e in
      let frame =
        deliver-IsFrame media (accept_media h body (media_or_new k.media_assembler)).0 k _ refl refl
          refl in
      (
        n,
        view-IsFed (f l) l (bits_of l) n (stream_for l k) _ _ _
            (subst (λ m. IsSameView (stream_for l k) (or_new l (m l))) (sym frame.streams)
              (record { assembler = refl; expected = refl; reorder = refl }))
            (on_lane-append l old _
              ∙ ap (λ d. on_lane l old ++ d) (frame.others l (lane_eq_symm l media e))
              ∙ sym (on_lane-append l old k.delivered))
            o,
      )

  pub retry-IsLive :
      (old : List DeliveredMessage) (l : Lane) (s : Stream) (k : ReliableLink W)
      → lane_eq l media ≡ false
      → k.streams l ≡ some s
      → IsLive old k
      → IsLive old (let (s', k') = retry_refused l (s, k) in with_stream l s' k')
  retry-IsLive old l s k e at v =
      let (s', k') = retry_refused l (s, k) in
      Keeps-IsLive old l k s' k' v (
        retry-Keeps (f l) l (bits_of l) old s k
          (subst (λ o. IsOrdered (f l) l (bits_of l) old (or_new l o, k)) at (v l e)))

  -- A link without streams that has delivered nothing.
  pub new-IsLive : (k : ReliableLink W) → k.streams ≡ (λ l. none) → k.delivered ≡ [] → IsLive [] k
  unfolding on_lane
  new-IsLive k e none_yet l is = (
    0,
    subst (λ m. IsFed (f l) l (bits_of l) 0 (or_new l (m l)) (on_lane l k.delivered)) (sym e)
        (subst (λ d. IsFed (f l) l (bits_of l) 0 (new_stream l) (on_lane l d)) (sym none_yet)
          (new_stream-IsFed (f l) l)),
  )
