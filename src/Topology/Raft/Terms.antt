-- ===== src/Topology/Raft/Terms.antt =====
-- The terms of src/topology/raft.rs only grow.
use ruv_drone.Base.{ℕ, ◌+◌, ◌≤◌, ◌<◌, ◌≡◌, List, [], ◌∷◌, All, length, arith, u64_max}
use ruv_drone.Topology.Raft.{
  RaftEvent, RaftNode, RaftMessage, handle_message, receives, promotes, run, step, tick, ticks,
  try_promote, request_vote, vote_granted, append_entries, append_entries_ack,
}

abbrev pub message_term : RaftMessage → ℕ
message_term (request_vote t _ _ _) = t
message_term (vote_granted t _ _) = t
message_term (append_entries t _ _ _ _ _) = t
message_term (append_entries_ack t _ _ _) = t

-- No message of the event carries a term above `b`.
abbrev pub TermWithin : ℕ → RaftEvent → Type 0
TermWithin b (receives m) = message_term m ≤ b
TermWithin b (ticks d p) = Unit
TermWithin b (promotes s) = Unit

pub TermWithin-suc :
    (b : ℕ) (es : List RaftEvent) → All (TermWithin b) es → All (TermWithin (b + 1)) es
TermWithin-suc b [] w = tt
TermWithin-suc b (ticks d p ∷ es) w = (tt, TermWithin-suc b es w.1)
TermWithin-suc b (receives m ∷ es) w = (omega (arith, w.0), TermWithin-suc b es w.1)
TermWithin-suc b (promotes s ∷ es) w = (tt, TermWithin-suc b es w.1)

module _ {W : Type 0} where
  tick-term :
      (n : RaftNode W) (d p : ℕ)
      → n.current_term < u64_max
      → (n.current_term ≤ (tick n d p).0.current_term)
        × ((tick n d p).0.current_term ≤ n.current_term + 1)
  unfolding tick
  tick-term n d p h = ground arith

  pub handle_message-term :
      (n : RaftNode W) (m : RaftMessage) (b : ℕ)
      → n.current_term ≤ b
      → message_term m ≤ b
      → (n.current_term ≤ (handle_message n m).0.current_term)
        × ((handle_message n m).0.current_term ≤ b)
  unfolding handle_message
  handle_message-term n (request_vote t c i l) b h k = ground arith
  handle_message-term n (vote_granted t v g) b h k = ground arith
  handle_message-term n (append_entries t l i lt es lc) b h k = ground arith
  handle_message-term n (append_entries_ack t f s i) b h k = ground arith

  try_promote-term :
      (n : RaftNode W) (size : ℕ) → (try_promote n size).current_term ≡ n.current_term
  unfolding try_promote
  try_promote-term n size = ground arith

  pub step-term :
      (n : RaftNode W) (e : RaftEvent) (b : ℕ)
      → n.current_term ≤ b
      → b < u64_max
      → TermWithin b e
      → (n.current_term ≤ (step n e).0.current_term) × ((step n e).0.current_term ≤ b + 1)
  unfolding step
  step-term n (ticks d p) b h k w = omega (arith, tick-term n d p (omega arith))
  step-term n (receives m) b h k w = omega (arith, handle_message-term n m b h w)
  step-term n (promotes s) b h k w = omega (arith, try_promote-term n s)

  -- While neither the node nor a message starts above `b`, and `b` leaves room for one election an
  -- event below the largest `u64`, the term never falls and grows by one an event at most.
  pub run-term :
      (n : RaftNode W) (es : List RaftEvent) (b : ℕ)
      → n.current_term ≤ b
      → b + length es ≤ u64_max
      → All (TermWithin b) es
      → (n.current_term ≤ (run n es).current_term) × ((run n es).current_term ≤ b + length es)
  unfolding run
  run-term n [] b h k w = omega arith
  run-term n (e ∷ es) b h k w = omega (
    arith,
    step-term n e b h (omega arith) w.0,
    run-term (step n e).0 es (b + 1) (step-term n e b h (omega arith) w.0).1 (omega arith)
        (TermWithin-suc b es w.1),
  )
