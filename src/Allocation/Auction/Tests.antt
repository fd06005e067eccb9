-- ===== src/Allocation/Auction/Tests.antt =====
-- An auction of src/allocation/auction.rs with two bids on a task.
use ruv_drone.Base.{ℕ, [], ◌∷◌, none, some, All, Any, ◌≡◌, ◌≢◌, ◌⊎◌, refl, nat_key}
use ruv_drone.Base.Fixed.{Fixed, Fixed-IsOrdered, fixed_float}
use ruv_drone.Base.TreeMap.{contains_key, get, insert, remove}
use ruv_drone.Types.{SwarmTask, return_to_home}
use ruv_drone.Allocation.Auction.{
  AuctionAllocator, Bid, announce_task, new, or_default, resolve, submit_bid,
}
use ruv_drone.Allocation.Auction.Awards.{IsAward}
use ruv_drone.Allocation.Auction.Resolved.{resolve-settles}

abbrev task_of : ℕ → SwarmTask Fixed Fixed
task_of id = record {
  id = id;
  kind = return_to_home;
  priority = some 500_000;
  target = record { x = some 0; y = some 0; z = some 0 };
  deadline_ms = none;
  assigned_to = none;
}

abbrev bid_of : ℕ → Fixed → Bid Fixed
bid_of node score = record { node_id = node; task_id = 1; score = score }

unfoldable auction : AuctionAllocator Fixed Fixed
unfolding new announce_task submit_bid contains_key get insert
auction =
    let announced = announce_task (announce_task (new 1000) (task_of 1)) (task_of 2) in
    submit_bid (submit_bid announced (bid_of 1 (some 800_000))) (bid_of 2 (some 300_000))

best_bidder_wins : (resolve auction).1 ≡ (1, 2) ∷ []
unfolding resolve auction new announce_task submit_bid contains_key get insert remove
best_bidder_wins = refl

-- A score that is not a number, of the first bid, wins over every other.
nan_wins :
    (resolve (
      submit_bid
        (submit_bid (announce_task (new 1000) (task_of 1)) (bid_of 1 none))
        (bid_of 2 (some 0)))).1
    ≡ (1, 1) ∷ []
unfolding resolve new announce_task submit_bid contains_key get insert remove
nan_wins = refl

pending : get 1 auction.pending_tasks ≡ some (task_of 1)
unfolding auction new announce_task submit_bid contains_key get insert
pending = refl

resolve-settles_example :
    let (c, results) = resolve auction in
    ((winner : ℕ) × IsAward auction.bids (1, winner)
      × Any (λ r. r ≡ (1, winner)) results
      × (get 1 c.pending_tasks ≡ none)
      × (get 1 c.bids ≡ none))
    ⊎ ((or_default (get 1 auction.bids) ≡ [])
        × All (λ r. r.0 ≢ 1) results
        × (get 1 c.pending_tasks ≡ some (task_of 1))
        × (get 1 c.bids ≡ get 1 auction.bids))
resolve-settles_example = resolve-settles Fixed-IsOrdered auction 1 (task_of 1) pending
