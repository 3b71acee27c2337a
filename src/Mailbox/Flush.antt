-- ===== src/Mailbox/Flush.antt =====
-- Mailbox.h: flush() waits until settle() says that everything was sent.
use net_link.Common.{
  ℕ, ◌≤◌, ◌≡◌, sym, ap, subst, ◌∙◌, ◌==◌, true, ◌||◌, not, some, ==_iff, Bool-cases, inl, inr,
  arith,
}
use net_link.Discovery.Table.{lookup, put}
use net_link.Protocol.Flags.{reliable, bulk}
use net_link.Mailbox.Queues.{lookup-put_self}
use net_link.Mailbox.{Peer, Mailbox, is_nil, settle_found, settle, is_flushed, is_flushed_found}

enough_done :
    (epoch target : ℕ) (q : Peer) → target ≤ q.done → is_flushed_found epoch target (some q) ≡ true
enough_done epoch target q h = ground arith

counted :
    (id epoch target : ℕ) (q : Peer) (b : Mailbox)
    → lookup id b.peers ≡ some q
    → target ≤ q.done
    → is_flushed id epoch target b ≡ true
counted id epoch target q b e h =
    ap (is_flushed_found epoch target) e ∙ enough_done epoch target q h

found_flushes :
    (id epoch target : ℕ) (p : Peer) (b : Mailbox)
    → lookup id b.peers ≡ some p
    → target ≤ p.accepted
    → (settle_found id (some p) b).0 ≡ true
    → is_flushed id epoch target (settle_found id (some p) b).1 ≡ true
unfolding settle_found
found_flushes id epoch target p b e h s =
    elim (Bool-cases (not (is_nil (p.lanes reliable).queue) || not (is_nil (p.lanes bulk).queue))) [
      | inl w ↦ absurd (cc)
      | inr w ↦ elim (Bool-cases (p.done == p.accepted)) [
        | inl d ↦ rw w (
            rw d (
              counted id epoch target p b e
                (subst (λ n. target ≤ n) (sym ((==_iff p.done p.accepted).0 d)) h)))
        | inr d ↦ rw w (
            rw d (
              counted id epoch target (record p { done = p.accepted })
                (record b { peers = put id (record p { done = p.accepted }) b.peers })
                (lookup-put_self id (record p { done = p.accepted }) b.peers) h))
      ]
    ]

-- Once `settle` returns true, a `flush` of the session that waits for no more messages than the session
-- has taken has what it waits for.
pub is_flushed-settle :
    (id epoch target : ℕ) (p : Peer) (b : Mailbox)
    → lookup id b.peers ≡ some p
    → target ≤ p.accepted
    → (settle id b).0 ≡ true
    → is_flushed id epoch target (settle id b).1 ≡ true
unfolding settle
is_flushed-settle id epoch target p b e h s =
    let same = ap (λ o. settle_found id o b) e in
    ap (λ r. is_flushed id epoch target r.1) same
    ∙ found_flushes id epoch target p b e h (ap (λ r. r.0) (sym same) ∙ s)
