-- ===== src/Topology/Raft/Invariant.antt =====
-- What holds of a node of src/topology/raft.rs between two events.
use ruv_drone.Base.{ℕ, ◌≤◌, ◌≡◌, ◌≢◌, List, [], ◌∷◌, some, length, length-append, arith}
use ruv_drone.Topology.Raft.{
  RaftConfig, RaftEvent, RaftNode, RaftMessage, follower, handle_message, new, receives, promotes,
  run, step, tick, ticks, try_promote, request_vote, vote_granted, append_entries,
  append_entries_ack,
}

module _ {W : Type 0} where
  -- The commit index stays inside the log, and who campaigns or leads has voted for itself.
  pub record IsConsistent (n : RaftNode W) : Type 0 where
    pub committed : n.commit_index ≤ length n.log
    pub self_vote : n.role ≢ follower → n.voted_for ≡ some n.id

  pub new-IsConsistent : (id : ℕ) (c : RaftConfig W) → IsConsistent (new id c)
  unfolding new
  new-IsConsistent id c = ground arith

  tick-IsConsistent :
      (n : RaftNode W) (elapsed_ms peers : ℕ)
      → IsConsistent n
      → IsConsistent (tick n elapsed_ms peers).0
  unfolding tick
  tick-IsConsistent n elapsed_ms peers h = ground arith

  handle_message-IsConsistent :
      (n : RaftNode W) (m : RaftMessage) → IsConsistent n → IsConsistent (handle_message n m).0
  unfolding handle_message
  handle_message-IsConsistent n (request_vote t c i l) h = ground arith
  handle_message-IsConsistent n (vote_granted t v g) h = ground arith
  handle_message-IsConsistent n (append_entries t l i lt es lc) h =
      ground (arith, length-append n.log es)
  handle_message-IsConsistent n (append_entries_ack t f s i) h = ground arith

  try_promote-IsConsistent :
      (n : RaftNode W) (size : ℕ) → IsConsistent n → IsConsistent (try_promote n size)
  unfolding try_promote
  try_promote-IsConsistent n size h = ground arith

  pub step-IsConsistent :
      (n : RaftNode W) (e : RaftEvent) → IsConsistent n → IsConsistent (step n e).0
  unfolding step
  step-IsConsistent n (ticks d p) h = tick-IsConsistent n d p h
  step-IsConsistent n (receives m) h = handle_message-IsConsistent n m h
  step-IsConsistent n (promotes s) h = try_promote-IsConsistent n s h

  run_from-IsConsistent :
      (n : RaftNode W) (es : List RaftEvent) → IsConsistent n → IsConsistent (run n es)
  unfolding run
  run_from-IsConsistent n [] h = h
  run_from-IsConsistent n (e ∷ es) h =
      run_from-IsConsistent (step n e).0 es (step-IsConsistent n e h)

  -- Whatever the clock, the network and the orchestrator do to a new node, its commit index stays
  -- inside its log, and as long as it campaigns or leads its vote is its own.
  pub run-IsConsistent :
      (id : ℕ) (c : RaftConfig W) (es : List RaftEvent) → IsConsistent (run (new id c) es)
  run-IsConsistent id c es = run_from-IsConsistent (new id c) es (new-IsConsistent id c)
