-- ===== src/Topology/Raft/Elections.antt =====
-- Timers of src/topology/raft.rs: when a tick starts an election or sends a heartbeat.
use ruv_drone.Base.{
  ℕ, ◌+◌, ◌≤◌, ◌<◌, ◌≡◌, ◌≢◌, ◌↔◌, inl, inr, List, [], ◌∷◌, none, some, map, length, arith, leb,
  Bool-cases, tests, All, refl, sym, subst, u32_max, u64_max,
}
use ruv_drone.Topology.Raft.{
  RaftNode, candidate, leader, run, step, tick, ticks, quorum, request_vote, append_entries,
  last_log_term,
}
use ruv_drone.Topology.Raft.Terms.{TermWithin, run-term}

abbrev pub total : List ℕ → ℕ
total [] = 0
total (d ∷ ds) = d + total ds

ticks-TermWithin : (b peers : ℕ) (ds : List ℕ) → All (TermWithin b) (map (λ d. ticks d peers) ds)
ticks-TermWithin b peers [] = tt
ticks-TermWithin b peers (d ∷ ds) = (tt, ticks-TermWithin b peers ds)

length-ticks : (peers : ℕ) (ds : List ℕ) → length (map (λ d. ticks d peers) ds) ≡ length ds
length-ticks peers [] = refl
length-ticks peers (d ∷ ds) = omega (arith, length-ticks peers ds)

module _ {W : Type 0} where
  -- A tick by which a node that does not lead reaches its timeout starts an election: the node
  -- moves to the next term, votes for itself, asks for votes of that term, and leads at once if it
  -- was given at most one peer.
  tick-election :
      (n : RaftNode W) (d peers : ℕ)
      → n.role ≢ leader
      → n.elapsed_since_last_event_ms + d ≤ u64_max
      → n.config.election_timeout_ms ≤ n.elapsed_since_last_event_ms + d
      → n.current_term < u64_max
      → peers ≤ u32_max
      → let m = (tick n d peers).0 in
        (m.current_term ≡ n.current_term + 1)
        × (m.voted_for ≡ some n.id)
        × (m.votes_received ≡ 1)
        × (m.elapsed_since_last_event_ms ≡ 0)
        × ((m.role ≡ leader) ↔ (peers ≤ 1))
        × ((m.role ≡ candidate) ↔ (1 < peers))
        × ((tick n d peers).1
            ≡ some (request_vote (n.current_term + 1) n.id (length n.log) (last_log_term n.log)))
  unfolding tick quorum
  tick-election n d peers r h k t p = ground arith

  -- Below its timeout such a node only counts the time.
  tick-waits :
      (n : RaftNode W) (d peers : ℕ)
      → n.role ≢ leader
      → n.elapsed_since_last_event_ms + d < n.config.election_timeout_ms
      → n.config.election_timeout_ms ≤ u64_max
      → tick n d peers
        ≡ (record n { elapsed_since_last_event_ms = n.elapsed_since_last_event_ms + d }, none)
  unfolding tick
  tick-waits n d peers r h k = ground arith

  -- A leader keeps its role and term under the clock, and sends a heartbeat with its commit index
  -- exactly when its interval has passed.
  tick-heartbeat :
      (n : RaftNode W) (d peers : ℕ)
      → n.role ≡ leader
      → n.elapsed_since_last_event_ms + d ≤ u64_max
      → let (m, sent) = tick n d peers in
        (m.role ≡ leader)
        × (m.current_term ≡ n.current_term)
        × ((sent
              ≡ some (
                  append_entries n.current_term n.id
                    (length n.log)
                    (last_log_term n.log)
                    []
                    n.commit_index))
            ↔ (n.config.heartbeat_ms ≤ n.elapsed_since_last_event_ms + d))
        × ((sent ≡ none) ↔ (n.elapsed_since_last_event_ms + d < n.config.heartbeat_ms))
  unfolding tick
  tick-heartbeat n d peers r h = ground arith

  -- Liveness: once ticks alone, of one number of peers that is at most u32::MAX, have passed the
  -- election timeout, a node that did not lead has moved to a later term, so an election has
  -- begun. The timer with all the ticks, and the term with one election a tick, are to stay
  -- within u64::MAX, and the timer was below the timeout at first.
  pub run-elects :
      (n : RaftNode W) (ds : List ℕ) (peers : ℕ)
      → n.role ≢ leader
      → n.elapsed_since_last_event_ms + total ds ≤ u64_max
      → n.elapsed_since_last_event_ms < n.config.election_timeout_ms
      → n.config.election_timeout_ms ≤ n.elapsed_since_last_event_ms + total ds
      → n.current_term + length ds ≤ u64_max
      → peers ≤ u32_max
      → n.current_term < (run n (map (λ d. ticks d peers) ds)).current_term
  unfolding run step
  run-elects n [] peers r h s t c p = absurd (omega arith)
  run-elects n (d ∷ ds) peers r h s t c p =
      elim (Bool-cases (leb n.config.election_timeout_ms (n.elapsed_since_last_event_ms + d))) [
        | inl due ↦
            let m = (tick n d peers).0 in
            let up : m.current_term ≡ n.current_term + 1 =
              (tick-election n d peers r (omega arith) (omega tests) (omega arith) p).0 in
            omega (
              arith,
              run-term m (map (λ x. ticks x peers) ds) m.current_term (omega arith)
                  (omega (arith, length-ticks peers ds)) (ticks-TermWithin m.current_term peers ds),
            )
        | inr wait ↦
            subst (λ r'. n.current_term < (run r'.0 (map (λ x. ticks x peers) ds)).current_term)
              (sym (tick-waits n d peers r (ground arith) (omega arith)))
              (run-elects
                (record n { elapsed_since_last_event_ms = n.elapsed_since_last_event_ms + d }) ds
                peers r (omega arith) (ground arith) (omega arith) (omega arith) p)
      ]

  -- A node that leads goes on leading under the clock.
  run-leads :
      (n : RaftNode W) (ds : List ℕ) (peers : ℕ)
      → n.role ≡ leader
      → (run n (map (λ d. ticks d peers) ds)).role ≡ leader
  unfolding run step tick
  run-leads n [] peers r = r
  run-leads n (d ∷ ds) peers r = run-leads (tick n d peers).0 ds peers (ground arith)

  tick-alone :
      (n : RaftNode W) (d peers : ℕ)
      → n.role ≢ leader
      → n.elapsed_since_last_event_ms + d ≤ u64_max
      → n.config.election_timeout_ms ≤ n.elapsed_since_last_event_ms + d
      → peers ≤ 1
      → (tick n d peers).0.role ≡ leader
  unfolding tick quorum
  tick-alone n d peers r h k p = ground arith

  -- A node that is given no peer or a single one makes itself the leader, without a message from
  -- anyone, once ticks have passed its election timeout, and goes on leading: where its timer with
  -- all the ticks stays within u64::MAX and was below the timeout at first.
  pub run-alone :
      (n : RaftNode W) (ds : List ℕ) (peers : ℕ)
      → n.role ≢ leader
      → n.elapsed_since_last_event_ms + total ds ≤ u64_max
      → (n.elapsed_since_last_event_ms < n.config.election_timeout_ms)
        × (n.config.election_timeout_ms ≤ n.elapsed_since_last_event_ms + total ds)
      → peers ≤ 1
      → (run n (map (λ d. ticks d peers) ds)).role ≡ leader
  unfolding run step
  run-alone n [] peers r h s p = absurd (omega (arith, s.0, s.1))
  run-alone n (d ∷ ds) peers r h s p =
      elim (Bool-cases (leb n.config.election_timeout_ms (n.elapsed_since_last_event_ms + d))) [
        | inl due ↦
            run-leads (tick n d peers).0 ds peers
              (tick-alone n d peers r (omega arith) (omega (tests, due)) p)
        | inr wait ↦
            subst (λ r'. (run r'.0 (map (λ x. ticks x peers) ds)).role ≡ leader)
              (sym (tick-waits n d peers r (ground (arith, wait)) (omega (arith, s.1))))
              (run-alone
                (record n { elapsed_since_last_event_ms = n.elapsed_since_last_event_ms + d }) ds
                peers r (omega arith) (ground (arith, wait), omega (arith, s.1)) p)
      ]
