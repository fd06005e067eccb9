-- ===== src/Topology/Raft/Votes.antt =====
-- Votes of src/topology/raft.rs: one candidate a term, as long as no entries are accepted.
use ruv_drone.Base.{
  ℕ, ◌+◌, ◌≤◌, ◌<◌, ◌≡◌, ◌≢◌, ◌*◌, Bool, true, false, List, [], ◌∷◌, Option, none, some, All,
  length, arith, u32_max, u64_max, ◌↔◌, ◌⊎◌,
}
use ruv_drone.Topology.Raft.{
  RaftEvent, RaftNode, RaftMessage, LogEntry, candidate, leader, handle_message, receives, promotes,
  run, step, tick, ticks, try_promote, quorum, request_vote, vote_granted, append_entries,
  append_entries_ack,
}
use ruv_drone.Topology.Raft.Terms.{TermWithin, TermWithin-suc, handle_message-term, step-term}

-- The reply grants a vote.
abbrev pub grants : Option RaftMessage → Bool
grants none = false
grants (some (vote_granted t v g)) = g
grants (some _) = false

module _ {W : Type 0} where
  -- Entries that come are of an earlier term than the node's, so it does not accept them.
  abbrev pub IsQuiet : RaftNode W → RaftEvent → Type 0
  IsQuiet n (receives (append_entries t l i lt es lc)) = t < n.current_term
  IsQuiet n _ = Unit

  -- No event of a run brings entries that the node accepts.
  abbrev pub AreQuiet : RaftNode W → List RaftEvent → Type 0
  AreQuiet n [] = Unit
  AreQuiet n (e ∷ es) = IsQuiet n e × AreQuiet (step n e).0 es

  -- In term `t` the node votes for `c` or for nobody.
  abbrev Pledged : ℕ → ℕ → RaftNode W → Type 0
  Pledged t c n = (t ≤ n.current_term) × (n.current_term ≡ t → n.voted_for ≡ some c)

  tick-Pledged :
      (t c : ℕ) (n : RaftNode W) (d p : ℕ)
      → n.current_term < u64_max
      → Pledged t c n
      → Pledged t c (tick n d p).0
  unfolding tick
  tick-Pledged t c n d p h k = ground (arith, k.1)

  handle_message-Pledged :
      (t c : ℕ) (n : RaftNode W) (m : RaftMessage)
      → IsQuiet n (receives m)
      → Pledged t c n
      → Pledged t c (handle_message n m).0
  unfolding handle_message
  handle_message-Pledged t c n (request_vote t' c' i l) q k = ground (arith, k.1)
  handle_message-Pledged t c n (vote_granted t' v g) q k = ground (arith, k.1)
  handle_message-Pledged t c n (append_entries t' l i lt es lc) q k = ground (arith, q, k.1)
  handle_message-Pledged t c n (append_entries_ack t' f s i) q k = k

  try_promote-Pledged :
      (t c : ℕ) (n : RaftNode W) (size : ℕ) → Pledged t c n → Pledged t c (try_promote n size)
  unfolding try_promote
  try_promote-Pledged t c n size k = ground (arith, k.1)

  step-Pledged :
      (t c : ℕ) (n : RaftNode W) (e : RaftEvent)
      → n.current_term < u64_max
      → IsQuiet n e
      → Pledged t c n
      → Pledged t c (step n e).0
  unfolding step
  step-Pledged t c n (ticks d p) h q k = tick-Pledged t c n d p h k
  step-Pledged t c n (receives m) h q k = handle_message-Pledged t c n m q k
  step-Pledged t c n (promotes s) h q k = try_promote-Pledged t c n s k

  run-Pledged :
      (t c : ℕ) (n : RaftNode W) (es : List RaftEvent) (b : ℕ)
      → n.current_term ≤ b
      → b + length es ≤ u64_max
      → AreQuiet n es
      → All (TermWithin b) es
      → Pledged t c n
      → Pledged t c (run n es)
  unfolding run
  run-Pledged t c n [] b h k q w p = p
  run-Pledged t c n (e ∷ es) b h k q w p =
      run-Pledged t c (step n e).0 es (b + 1) (step-term n e b h (omega arith) w.0).1 (omega arith)
        q.1 (TermWithin-suc b es w.1) (step-Pledged t c n e (omega arith) q.0 p)

  granted-Pledged :
      (t c i l : ℕ) (n : RaftNode W)
      → grants (handle_message n (request_vote t c i l)).1 ≡ true
      → Pledged t c (handle_message n (request_vote t c i l)).0
  unfolding handle_message
  granted-Pledged t c i l n h = ground arith

  granted-of-Pledged :
      (t c c' i l : ℕ) (n : RaftNode W)
      → Pledged t c n
      → grants (handle_message n (request_vote t c' i l)).1 ≡ true
      → c' ≡ c
  unfolding handle_message
  granted-of-Pledged t c c' i l n k h = ground (arith, k.1)

  -- One vote a term: after a vote for `c` in term `t`, and any events but entries that the node
  -- accepts, where no message is of a term above `b` and `b` leaves room below u64::MAX for one
  -- election an event, a vote that the node grants in term `t` goes to `c` again.
  pub vote_once :
      (n : RaftNode W) (t c c' i l i' l' : ℕ) (es : List RaftEvent) (b : ℕ)
      → n.current_term ≤ b
      → t ≤ b
      → b + length es ≤ u64_max
      → AreQuiet (handle_message n (request_vote t c i l)).0 es
      → All (TermWithin b) es
      → grants (handle_message n (request_vote t c i l)).1 ≡ true
      → grants
          (handle_message
            (run (handle_message n (request_vote t c i l)).0 es)
            (request_vote t c' i' l')).1
        ≡ true
      → c' ≡ c
  vote_once n t c c' i l i' l' es b h ht k q w g g' =
      granted-of-Pledged t c c' i' l' _
        (run-Pledged t c _ es b (handle_message-term n (request_vote t c i l) b h ht).1 k q w
          (granted-Pledged t c i l n g))
        g'

  -- Accepted entries of the current term erase the vote: whoever the node has voted for in this
  -- term, it then grants a second vote of the same term to any candidate.
  pub append_entries-second_vote :
      (n : RaftNode W) (leader_id i lt lc c' i' l' : ℕ) (entries : List LogEntry)
      → let m = (handle_message n (append_entries n.current_term leader_id i lt entries lc)).0 in
        grants (handle_message m (request_vote n.current_term c' i' l')).1 ≡ true
  unfolding handle_message
  append_entries-second_vote n leader_id i lt lc c' i' l' entries = ground arith

  -- For clusters of at most u32::MAX, a node leads after the call exactly if it led before or is a
  -- candidate with the votes of a strict majority; such a candidate changes nothing but its role,
  -- and every other node changes nothing at all.
  pub try_promote-majority :
      (n : RaftNode W) (size : ℕ)
      → size ≤ u32_max
      → (((try_promote n size).role ≡ leader)
          ↔ ((n.role ≡ leader) ⊎ ((n.role ≡ candidate) × (size < 2 * n.votes_received))))
        × ((((n.role ≡ candidate) × (size < 2 * n.votes_received))
              × (try_promote n size ≡ (record n { role = leader })))
            ⊎ (((n.role ≢ candidate) ⊎ (2 * n.votes_received ≤ size)) × (try_promote n size ≡ n)))
  unfolding try_promote quorum
  try_promote-majority n size h = ground arith
