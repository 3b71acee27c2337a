-- ===== src/ReliableLink/Reached.antt =====
-- ReliableLink.cpp: what the application gets from a link, in the end.
use net_link.Common.{ℕ, ◌≡◌, refl, false, List, [], ◌++◌, Option}
use net_link.Double.{Double}
use net_link.Protocol.Flags.{Lane, media, lane_eq}
use net_link.Fragmentation.Message.{AssemblyBudget, MessageAssembler}
use net_link.ReliableLink.{DeliveredMessage, LinkTimings, ReliableLink}
use net_link.ReliableLink.Link.{new_link}
use net_link.ReliableLink.Delivery.{Packet, on_lane, Fed}
use net_link.ReliableLink.Orderly.{IsOrderly, live-IsLogged, new-IsLive}
use net_link.ReliableLink.Runs.{Event, run, IsAllowed, run-IsOrderly}

module _ {W : Type 0} ⦃d : Double W⦄ (f : Lane → ℕ → Option Packet) where
  -- What comes of a new link, and of what was taken out of it.
  pub data Reached : List DeliveredMessage × ReliableLink W → Type 0 where
    start :
        (timings : LinkTimings) (id drawn : ℕ) (budget : Option AssemblyBudget)
        → Reached ([], new_link timings id drawn budget)
    later :
        {s : List DeliveredMessage × ReliableLink W}
        → Reached s
        → (e : Event) → IsAllowed f e s.1
        → Reached (run e s)

  pub Reached-IsOrderly :
      {s : List DeliveredMessage × ReliableLink W} → Reached s → IsOrderly f s.0 s.1
  unfolding new_link
  Reached-IsOrderly (start timings id drawn budget) =
      let fresh = new-IsLive {W = W} f (new_link timings id drawn budget) refl refl in
      record {
        live = λ e. fresh;
        logged = live-IsLogged {W = W} f [] (new_link timings id drawn budget) fresh;
      }
  Reached-IsOrderly (later {s} r e a) = run-IsOrderly f e s.0 s.1 a (Reached-IsOrderly r)

  -- Whatever happens to a new link, and even when it fails: what it has delivered on an acknowledged lane
  -- is what the packets of the remote with the seqs 1 to some n complete, if each of them is put together
  -- exactly once and in this order.
  pub delivered-Fed :
      {s : List DeliveredMessage × ReliableLink W} (l : Lane)
      → Reached s
      → lane_eq l media ≡ false
      → (n : ℕ) × (a : MessageAssembler) × Fed (f l) l n a (on_lane l (s.0 ++ s.1.delivered))
  delivered-Fed l r e = (Reached-IsOrderly r).logged l e
