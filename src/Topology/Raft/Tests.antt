-- ===== src/Topology/Raft/Tests.antt =====
-- Runs of the node of src/topology/raft.rs, and the theorems at concrete inputs.
use ruv_drone.Base.{
  ℕ, ◌*◌, ◌≤◌, ◌<◌, ◌≡◌, ◌≢◌, refl, ◌↔◌, ◌⊎◌, true, List, [], ◌∷◌, some, map, arith,
}
use ruv_drone.Topology.Raft.{
  RaftConfig, RaftEvent, RaftNode, LogEntry, candidate, leader, follower, new, run, step, tick,
  ticks, receives, promotes, quorum, handle_message, try_promote, request_vote, vote_granted,
  append_entries,
}
use ruv_drone.Topology.Raft.Invariant.{IsConsistent, run-IsConsistent, new-IsConsistent}
use ruv_drone.Topology.Raft.Log.{Extends, run-append_only}
use ruv_drone.Topology.Raft.Votes.{
  grants, vote_once, append_entries-second_vote, try_promote-majority,
}
use ruv_drone.Topology.Raft.Elections.{run-alone, run-elects}

abbrev config : RaftConfig ℕ
config = record {
  election_timeout_ms = 300;
  heartbeat_ms = 100;
  min_battery_pct = 20;
  min_link_quality = 40;
}

abbrev entry : LogEntry
entry = record { term = 1; payload = 7 ∷ [] }

-- Node 1 of three starts an election, gets the vote of node 2, and is promoted.
abbrev campaign : List RaftEvent
campaign = ticks 200 2 ∷ ticks 150 2 ∷ receives (vote_granted 1 2 true) ∷ promotes 3 ∷ []

campaign_leads : (run (new 1 config) campaign).role ≡ leader
unfolding run step tick new handle_message try_promote quorum
campaign_leads = refl

run-IsConsistent_example : IsConsistent (run (new 1 config) campaign)
run-IsConsistent_example = run-IsConsistent 1 config campaign

abbrev follow : List RaftEvent
follow = receives (append_entries 2 9 0 0 (entry ∷ entry ∷ []) 1) ∷ []

run-append_only_example :
    Extends (new 1 config).log (run (new 1 config) follow).log
    × ((new 1 config).commit_index ≤ (run (new 1 config) follow).commit_index)
run-append_only_example = run-append_only (new 1 config) follow (new-IsConsistent 1 config)

-- A second request of the same candidate is granted again.
abbrev between : List RaftEvent
between =
    receives (request_vote 4 6 0 0)
    ∷ receives (append_entries 3 9 0 0 [] 0)
    ∷ ticks 20 2
    ∷ receives (vote_granted 4 2 true)
    ∷ []

vote_once_example : ◌≡◌ {A = ℕ} 5 5
unfolding run step tick new handle_message
vote_once_example =
    vote_once (new 1 config) 4 5 5 0 0 0 0 between 4 (omega arith) (omega arith) (omega arith)
      (omega arith) (omega arith) refl refl

abbrev voted : RaftNode ℕ
voted = record {
  id = 1;
  role = follower;
  current_term = 4;
  voted_for = some 5;
  log = [];
  commit_index = 0;
  config = config;
  votes_received = 0;
  elapsed_since_last_event_ms = 0;
}

-- The vote for 5 in term 4 is followed by one for 6 in term 4.
append_entries-second_vote_example :
    grants
      (handle_message
        (handle_message voted (append_entries 4 5 0 0 [] 0)).0
        (request_vote 4 6 0 0)).1
    ≡ true
append_entries-second_vote_example = append_entries-second_vote voted 5 0 0 0 6 0 0 []

abbrev elected : RaftNode ℕ
elected = record voted { role = candidate; votes_received = 2 }

try_promote-majority_example :
    (((try_promote elected 3).role ≡ leader)
      ↔ ((elected.role ≡ leader) ⊎ ((elected.role ≡ candidate) × (3 < 2 * elected.votes_received))))
    × ((((elected.role ≡ candidate) × (3 < 2 * elected.votes_received))
          × (try_promote elected 3 ≡ (record elected { role = leader })))
        ⊎ (((elected.role ≢ candidate) ⊎ (2 * elected.votes_received ≤ 3))
            × (try_promote elected 3 ≡ elected)))
try_promote-majority_example = try_promote-majority elected 3 (omega arith)

abbrev late : RaftNode ℕ
late = record voted { elapsed_since_last_event_ms = 250 }

run-alone_example : (run late (map (λ d. ticks d 1) (30 ∷ 30 ∷ 500 ∷ []))).role ≡ leader
run-alone_example =
    run-alone late (30 ∷ 30 ∷ 500 ∷ []) 1 (λ e. cc) (omega arith) (omega arith) (omega arith)

run-elects_example :
    voted.current_term < (run voted (map (λ d. ticks d 2) (120 ∷ 120 ∷ 120 ∷ []))).current_term
run-elects_example =
    run-elects voted (120 ∷ 120 ∷ 120 ∷ []) 2 (λ e. cc) (omega arith) (omega arith) (omega arith)
      (omega arith) (omega arith)
