-- ===== src/SendScheduler.antt =====
-- src/internal/Channel/SendScheduler.h: a token bucket counted in datagrams, shared by lane and, within
-- a lane, by the peers in turn. A peer is its PeerId; times are nanoseconds, as std::chrono counts them.
pub mod Rings
pub mod Turns
pub mod Runs
pub mod Ends
pub mod Budget
mod Tests
use net_link.Common.{
  ℕ, zero, suc, ◌+◌, ◌-◌, ◌/◌, ◌%◌, ◌^◌, max, ◌==◌, ltb, leb, if◌then◌else◌, Bool, true, false,
  ◌&&◌, ◌||◌, not, List, [], ◌∷◌, ◌++◌, length, get_or, Option, none, some,
}
use net_link.Double.{Double, min_of}
use net_link.Protocol.Flags.{Lane, control, reliable, bulk, media, lane_eq}

abbrev pub quantum : ℕ
quantum = 4

-- `Result`: what `send` did with its turn.
pub data Result : Type 0 where
  was_sent was_lost nothing_left is_blocked : Result

pub record Ring : Type 0 where
  pub peers : List ℕ
  pub cursor : ℕ
  pub used : ℕ

abbrev pub empty_ring : Ring
empty_ring = record { peers = []; cursor = 0; used = 0 }

pub record SendScheduler (W : Type 0) : Type 0 where
  pub rate : ℕ
  pub burst : ℕ
  pub tokens : W
  pub refilled_at : Option ℕ
  pub rings : Lane → Ring

abbrev pub is_none_left : List ℕ → Bool
is_none_left [] = true
is_none_left (x ∷ xs) = false

-- `Ring::next`.
unfoldable pub next_peer : Ring → Ring
next_peer r = record r { cursor = (r.cursor + 1) % 2 ^ 64; used = 0 }

-- `peers.erase(peers.begin() + i)`.
unfoldable pub erase_at : ℕ → List ℕ → List ℕ
erase_at i [] = []
erase_at zero (x ∷ xs) = xs
erase_at (suc i) (x ∷ xs) = x ∷ erase_at i xs

-- `find`, as an index: the number of peers if it is not there.
unfoldable pub index_of : ℕ → List ℕ → ℕ
index_of peer [] = 0
index_of peer (x ∷ xs) = let rest = index_of peer xs in if x == peer then 0 else suc rest

unfoldable pub remove_from : ℕ → Ring → Ring
unfolding index_of erase_at
remove_from peer r =
    let i = index_of peer r.peers in
    if i == length r.peers then r else record r {
      peers = erase_at i r.peers;
      cursor = if ltb i r.cursor then r.cursor - 1 else r.cursor;
    }

abbrev pub with_ring : {W : Type 0} → Lane → Ring → SendScheduler W → SendScheduler W
with_ring l r b = record b { rings = λ l'. if lane_eq l l' then r else b.rings l' }

-- Two ticks worth of datagrams.
abbrev pub burst_of : ℕ → ℕ
burst_of rate = max 16 (rate / 500)

module _ {W : Type 0} where
  abbrev pub is_unlimited : SendScheduler W → Bool
  is_unlimited b = b.rate == 0

  unfoldable pub add_peer : Lane → ℕ → SendScheduler W → SendScheduler W
  add_peer l peer b =
      with_ring l (record (b.rings l) { peers = (b.rings l).peers ++ (peer ∷ []) }) b

  unfoldable pub remove_peer : ℕ → SendScheduler W → SendScheduler W
  unfolding remove_from
  remove_peer peer b = record b { rings = λ l. remove_from peer (b.rings l) }

  unfoldable pub clear_rings : SendScheduler W → SendScheduler W
  clear_rings b = record b { rings = λ l. empty_ring }

  unfoldable pub has_backlog : SendScheduler W → Bool
  has_backlog b =
      not (is_none_left (b.rings control).peers)
      || not (is_none_left (b.rings reliable).peers)
      || not (is_none_left (b.rings bulk).peers)
      || not (is_none_left (b.rings media).peers)

module _ {W : Type 0} ⦃d : Double W⦄ where
  unfoldable pub set_rate : ℕ → SendScheduler W → SendScheduler W
  set_rate rate b = record b {
    rate = rate;
    burst = burst_of rate;
    tokens = d.of_ℕ (burst_of rate);
    refilled_at = none;
  }

  unfoldable pub new_scheduler : ℕ → SendScheduler W
  unfolding set_rate
  new_scheduler rate = set_rate rate (record {
    rate = 0;
    burst = 0;
    tokens = d.of_ℕ 0;
    refilled_at = none;
    rings = λ l. empty_ring;
  })

  unfoldable pub has_tokens : SendScheduler W → Bool
  has_tokens b = is_unlimited b || d.le (d.of_ℕ 1) b.tokens

  -- With the time of the latest refill; `duration<double>` is in seconds.
  unfoldable pub refilled : ℕ → Option ℕ → SendScheduler W → W
  refilled now none b = b.tokens
  refilled now (some at) b =
      if ltb at now
      then min_of (d.of_ℕ b.burst)
          (d.add b.tokens (d.mul (d.of_ℕ b.rate) (d.div (d.of_ℕ (now - at)) (d.of_ℕ 1000000000))))
      else b.tokens

  unfoldable pub refill : ℕ → SendScheduler W → SendScheduler W
  unfolding refilled
  refill now b = record b { tokens = refilled now b.refilled_at b; refilled_at = some now }

  unfoldable pub spend : ℕ → SendScheduler W → SendScheduler W
  spend datagrams b =
      if is_unlimited b then b else record b { tokens = d.sub b.tokens (d.of_ℕ datagrams) }

  -- The share of the budget that Media may use.
  unfoldable pub allowance_of : SendScheduler W → W
  allowance_of b =
      if not (is_none_left (b.rings reliable).peers) || not (is_none_left (b.rings bulk).peers)
      then d.div (d.mul b.tokens (d.of_ℕ 3)) (d.of_ℕ 4)
      else b.tokens

-- What the loops of `run` work on: `caller` is the state that `send` works on.
pub record Work (W T : Type 0) : Type 0 where
  pub scheduler : SendScheduler W
  pub allowance : W
  pub caller : T

-- How a loop ends. `unfinished` is of the model: the rounds were used up.
pub data Ending : Type 0 where
  finished stopped unfinished : Ending

-- The ring with the cursor at a peer.
abbrev pub at_peer : Ring → Ring
at_peer r = if leb (length r.peers) r.cursor then record r { cursor = 0 } else r

unfoldable pub after_sent : Ring → Ring
unfolding next_peer
after_sent r =
    let used = (r.used + 1) % 2 ^ 64 in
    if leb quantum used then next_peer (record r { used = used }) else record r { used = used }

unfoldable pub after_nothing : Ring → Ring
unfolding erase_at
after_nothing r = record r { peers = erase_at r.cursor r.peers; used = 0 }

-- `send` is what the caller gives to `run`.
module _ {W T : Type 0} ⦃d : Double W⦄ (send : Lane → ℕ → T → Result × T) where
  abbrev pub is_capped : Lane → Work W T → Bool
  is_capped l x = lane_eq l media && not (is_unlimited x.scheduler)

  -- The condition of the loop.
  unfoldable pub goes_on : Lane → Work W T → Bool
  unfolding has_tokens
  goes_on l x =
      not (is_none_left (x.scheduler.rings l).peers)
      && has_tokens x.scheduler
      && (not (is_capped l x) || d.le (d.of_ℕ 1) x.allowance)

  -- A datagram is paid for.
  unfoldable pub pay : Lane → Work W T → Work W T
  unfolding spend
  pay l x = record x {
    scheduler = spend 1 x.scheduler;
    allowance = d.sub x.allowance (d.of_ℕ (if is_capped l x then 1 else 0));
  }

  abbrev pub store_ring : Lane → Ring → Work W T → Work W T
  store_ring l r x = record x { scheduler = with_ring l r x.scheduler }

  -- The `switch`, with the ring that the turn was in.
  unfoldable pub take_turn : Lane → Result → Ring → Work W T → Work W T
  unfolding pay after_sent next_peer after_nothing
  take_turn l was_sent r x = store_ring l (after_sent r) (pay l x)
  take_turn l was_lost r x = store_ring l (next_peer r) (pay l x)
  take_turn l nothing_left r x = store_ring l (after_nothing r) x
  take_turn l is_blocked r x = store_ring l r x

  -- `rest` is what follows a turn that does not end the run.
  abbrev pub unless_blocked : Result → Ending × Work W T → Work W T → Ending × Work W T
  unless_blocked is_blocked rest x = (stopped, x)
  unless_blocked was_sent rest x = rest
  unless_blocked was_lost rest x = rest
  unless_blocked nothing_left rest x = rest

  -- One round of the loop over a lane.
  abbrev pub turn : Lane → Work W T → Result × Work W T
  turn l x =
      let r = at_peer (x.scheduler.rings l) in
      let (result, t) = send l (get_or r.peers r.cursor 0) x.caller in
      (result, take_turn l result r (record x { caller = t }))

  unfoldable pub lane_rounds : ℕ → Lane → Work W T → Ending × Work W T
  unfolding goes_on take_turn
  lane_rounds zero l x = (unfinished, x)
  lane_rounds (suc rounds) l x =
      let (result, x') = turn l x in
      let rest = lane_rounds rounds l x' in
      if goes_on l x then unless_blocked result rest x' else (finished, x)

  -- The next lane, unless the run has ended.
  unfoldable pub and_then : ℕ → Lane → Ending × Work W T → Ending × Work W T
  unfolding lane_rounds
  and_then rounds l (finished, x) = lane_rounds rounds l x
  and_then rounds l (stopped, x) = (stopped, x)
  and_then rounds l (unfinished, x) = (unfinished, x)

  -- `Order`, the most urgent lane first.
  unfoldable pub run_lanes : ℕ → Work W T → Ending × Work W T
  unfolding and_then
  run_lanes rounds x =
      and_then rounds bulk
        (and_then rounds reliable (and_then rounds media (and_then rounds control (finished, x))))

  unfoldable pub run_scheduler : ℕ → SendScheduler W → T → Ending × Work W T
  unfolding run_lanes allowance_of
  run_scheduler rounds b t =
      run_lanes rounds (record { scheduler = b; allowance = allowance_of b; caller = t })
