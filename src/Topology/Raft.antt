-- ===== src/Topology/Raft.antt =====
-- src/topology/raft.rs: election of a cluster head. `W` is the `f32` of the configuration. A step
-- that mutates the node returns the new node; arithmetic on `u64` and `u32` wraps, as in release
-- builds. `elapsed_ms` is the whole number of milliseconds of a `Duration`.
pub mod Invariant
pub mod Terms
pub mod Log
pub mod Votes
pub mod Elections
mod Tests
use ruv_drone.Base.{
  ℕ, ◌+◌, ◌/◌, ◌&&◌, ◌||◌, Bool, true, false, not, ltb, leb, ◌==◌, if◌then◌else◌, List, [], ◌∷◌,
  ◌++◌, Option, none, some, is_some, length, last?, min, u32, u64,
}
use ruv_drone.Base.Float.{Float}
use ruv_drone.Types.{DroneState}

pub record RaftConfig (W : Type 0) : Type 0 where
  pub election_timeout_ms : ℕ
  pub heartbeat_ms : ℕ
  pub min_battery_pct : W
  pub min_link_quality : W

pub data RaftRole : Type 0 where
  follower candidate leader : RaftRole

pub record LogEntry : Type 0 where
  pub term : ℕ
  pub payload : List ℕ

pub data RaftMessage : Type 0 where
  request_vote : (term candidate_id last_log_index last_log_term : ℕ) → RaftMessage
  vote_granted : (term voter_id : ℕ) → (granted : Bool) → RaftMessage
  append_entries :
      (term leader_id prev_log_index prev_log_term : ℕ)
      → (entries : List LogEntry) → (leader_commit : ℕ) → RaftMessage
  append_entries_ack : (term follower_id : ℕ) → (success : Bool) → (match_index : ℕ) → RaftMessage

pub record RaftNode (W : Type 0) : Type 0 where
  pub id : ℕ
  pub role : RaftRole
  pub current_term : ℕ
  pub voted_for : Option ℕ
  pub log : List LogEntry
  pub commit_index : ℕ
  pub config : RaftConfig W
  pub votes_received : ℕ
  pub elapsed_since_last_event_ms : ℕ

abbrev pub is_candidate : RaftRole → Bool
is_candidate candidate = true
is_candidate _ = false

-- `self.log.last().map(|e| e.term).unwrap_or(0)`.
unfoldable pub last_log_term : List LogEntry → ℕ
last_log_term l = elim (last? l) [ none ↦ 0 | some e ↦ e.term ]

unfoldable pub quorum : ℕ → ℕ
quorum cluster_size = u32 (cluster_size / 2 + 1)

-- `self.voted_for.is_none() || self.voted_for == Some(candidate_id)`.
unfoldable pub may_vote_for : Option ℕ → ℕ → Bool
may_vote_for none candidate_id = true
may_vote_for (some c) candidate_id = c == candidate_id

module _ {W : Type 0} where
  unfoldable pub new : ℕ → RaftConfig W → RaftNode W
  new id config = record {
    id = id;
    role = follower;
    current_term = 0;
    voted_for = none;
    log = [];
    commit_index = 0;
    config = config;
    votes_received = 0;
    elapsed_since_last_event_ms = 0;
  }

  unfoldable pub is_eligible_leader :
      ⦃f : Float W⦄ → {D : Type 0} → DroneState D W → RaftConfig W → Bool
  is_eligible_leader ⦃f⦄ s config =
      f.le config.min_battery_pct s.battery_pct && f.le config.min_link_quality s.link_quality

  -- The leader's half of `tick`: a heartbeat when it is due.
  unfoldable pub tick_leader : RaftNode W → RaftNode W × Option RaftMessage
  tick_leader n =
      if leb n.config.heartbeat_ms n.elapsed_since_last_event_ms
      then (
        record n { elapsed_since_last_event_ms = 0 },
        some (
            append_entries n.current_term n.id (length n.log) (last_log_term n.log) []
              n.commit_index),
      )
      else (n, none)

  -- The other half: a new election when the timeout has passed. `peers` is `peers.len()`.
  unfoldable pub tick_election : ℕ → RaftNode W → RaftNode W × Option RaftMessage
  tick_election peers n =
      if leb n.config.election_timeout_ms n.elapsed_since_last_event_ms
      then (
        record n {
          elapsed_since_last_event_ms = 0;
          current_term = u64 (n.current_term + 1);
          role = if leb (quorum peers) 1 then leader else candidate;
          voted_for = some n.id;
          votes_received = 1;
        },
        some (request_vote (u64 (n.current_term + 1)) n.id (length n.log) (last_log_term n.log)),
      )
      else (n, none)

  unfoldable pub tick_role : RaftRole → ℕ → RaftNode W → RaftNode W × Option RaftMessage
  unfolding tick_leader tick_election
  tick_role leader peers n = tick_leader n
  tick_role _ peers n = tick_election peers n

  unfoldable pub tick : RaftNode W → ℕ → ℕ → RaftNode W × Option RaftMessage
  unfolding tick_role
  tick n elapsed_ms peers = tick_role n.role peers (record n {
    elapsed_since_last_event_ms = u64 (n.elapsed_since_last_event_ms + u64 elapsed_ms);
  })

  -- A later term makes the node a follower that has not voted.
  unfoldable pub observe_term : ℕ → RaftNode W → RaftNode W
  observe_term term n =
      if ltb n.current_term term
      then record n { current_term = term; role = follower; voted_for = none }
      else n

  unfoldable pub on_request_vote : ℕ → ℕ → RaftNode W → RaftNode W × Option RaftMessage
  unfolding observe_term may_vote_for
  on_request_vote term candidate_id n =
      let m = observe_term term n in
      if leb m.current_term term && may_vote_for m.voted_for candidate_id
      then (
        record m { voted_for = some candidate_id; elapsed_since_last_event_ms = 0 },
        some (vote_granted m.current_term m.id true),
      )
      else (m, some (vote_granted m.current_term m.id false))

  unfoldable pub on_vote_granted : ℕ → Bool → RaftNode W → RaftNode W
  on_vote_granted term granted n =
      if term == n.current_term && is_candidate n.role && granted
      then record n { votes_received = u32 (n.votes_received + 1) }
      else n

  unfoldable pub on_append_entries :
      ℕ → List LogEntry → ℕ → RaftNode W → RaftNode W × Option RaftMessage
  on_append_entries term entries leader_commit n =
      let log = n.log ++ entries in
      if leb n.current_term term
      then (
        record n {
          current_term = term;
          role = follower;
          voted_for = none;
          elapsed_since_last_event_ms = 0;
          log = log;
          commit_index =
              if ltb n.commit_index leader_commit
              then min leader_commit (length log)
              else n.commit_index;
        },
        some (append_entries_ack term n.id true (length log)),
      )
      else (n, some (append_entries_ack n.current_term n.id false (length n.log)))

  unfoldable pub handle_message : RaftNode W → RaftMessage → RaftNode W × Option RaftMessage
  unfolding on_request_vote on_vote_granted on_append_entries
  handle_message n (request_vote term candidate_id _ _) = on_request_vote term candidate_id n
  handle_message n (vote_granted term _ granted) = (on_vote_granted term granted n, none)
  handle_message n (append_entries term _ _ _ entries leader_commit) =
      on_append_entries term entries leader_commit n
  handle_message n (append_entries_ack _ _ _ _) = (n, none)

  unfoldable pub try_promote : RaftNode W → ℕ → RaftNode W
  try_promote n cluster_size =
      if is_candidate n.role && leb (quorum cluster_size) n.votes_received
      then record n { role = leader }
      else n

-- What drives a node: the clock, the network, and the orchestrator that promotes it.
pub data RaftEvent : Type 0 where
  ticks : (elapsed_ms peers : ℕ) → RaftEvent
  receives : RaftMessage → RaftEvent
  promotes : (cluster_size : ℕ) → RaftEvent

module _ {W : Type 0} where
  unfoldable pub step : RaftNode W → RaftEvent → RaftNode W × Option RaftMessage
  step n (ticks elapsed_ms peers) = tick n elapsed_ms peers
  step n (receives msg) = handle_message n msg
  step n (promotes cluster_size) = (try_promote n cluster_size, none)

  unfoldable pub run : RaftNode W → List RaftEvent → RaftNode W
  run n [] = n
  run n (e ∷ es) = run (step n e).0 es
