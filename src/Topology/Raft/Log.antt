-- ===== src/Topology/Raft/Log.antt =====
-- The log of src/topology/raft.rs is append-only, and the commit index never falls.
use ruv_drone.Base.{
  ℕ, ◌≤◌, ◌≡◌, refl, sym, ◌∙◌, ap, List, [], ◌∷◌, ◌++◌, length-append, arith, Bool, Bool-cases, leb,
  inl, inr,
}
use mathlib.Core.List.{append-nil, append_assoc}
use ruv_drone.Topology.Raft.{
  RaftEvent, RaftNode, LogEntry, handle_message, receives, promotes, run, step, tick, ticks,
  try_promote, request_vote, vote_granted, append_entries, append_entries_ack,
}
use ruv_drone.Topology.Raft.Invariant.{IsConsistent, step-IsConsistent}

-- `m` continues `l`.
abbrev pub Extends : List LogEntry → List LogEntry → Type 0
Extends l m = (suffix : List LogEntry) × (m ≡ l ++ suffix)

unchanged : {l m : List LogEntry} → m ≡ l → Extends l m
unchanged {l} e = ([], e ∙ sym (append-nil l))

module _ {W : Type 0} where
  tick-log : (n : RaftNode W) (d p : ℕ) → (tick n d p).0.log ≡ n.log
  unfolding tick
  tick-log n d p = ground arith

  try_promote-log : (n : RaftNode W) (size : ℕ) → (try_promote n size).log ≡ n.log
  unfolding try_promote
  try_promote-log n size = ground arith

  request_vote-log :
      (n : RaftNode W) (t c i l : ℕ) → (handle_message n (request_vote t c i l)).0.log ≡ n.log
  unfolding handle_message
  request_vote-log n t c i l = ground arith

  vote_granted-log :
      (n : RaftNode W) (t v : ℕ) (g : Bool) → (handle_message n (vote_granted t v g)).0.log ≡ n.log
  unfolding handle_message
  vote_granted-log n t v g = ground arith

  append_entries-log :
      (n : RaftNode W) (t l i lt : ℕ) (es : List LogEntry) (lc : ℕ)
      → Extends n.log (handle_message n (append_entries t l i lt es lc)).0.log
  unfolding handle_message
  append_entries-log n t l i lt es lc = elim (Bool-cases (leb n.current_term t)) [
    | inl h ↦ (es, rw h)
    | inr h ↦ ([], rw (h, append-nil))
  ]

  step-Extends : (n : RaftNode W) (e : RaftEvent) → Extends n.log (step n e).0.log
  unfolding step
  step-Extends n (ticks d p) = unchanged (tick-log n d p)
  step-Extends n (promotes s) = unchanged (try_promote-log n s)
  step-Extends n (receives (request_vote t c i l)) = unchanged (request_vote-log n t c i l)
  step-Extends n (receives (vote_granted t v g)) = unchanged (vote_granted-log n t v g)
  step-Extends n (receives (append_entries t l i lt es lc)) = append_entries-log n t l i lt es lc
  step-Extends n (receives (append_entries_ack t f s i)) = unchanged (unfold handle_message in refl)

  step-commit :
      (n : RaftNode W) (e : RaftEvent) → IsConsistent n → n.commit_index ≤ (step n e).0.commit_index
  unfolding step
  step-commit n (ticks d p) h = unfold tick in ground arith
  step-commit n (promotes s) h = unfold try_promote in ground arith
  step-commit n (receives (request_vote t c i l)) h = unfold handle_message in ground arith
  step-commit n (receives (vote_granted t v g)) h = unfold handle_message in ground arith
  step-commit n (receives (append_entries t l i lt es lc)) h =
      unfold handle_message in ground (arith, length-append n.log es)
  step-commit n (receives (append_entries_ack t f s i)) h = unfold handle_message in ground arith

  -- The log is append-only and the commit index never falls, whatever the events: no message makes
  -- a consistent node drop or replace an entry that it has.
  pub run-append_only :
      (n : RaftNode W) (es : List RaftEvent)
      → IsConsistent n
      → Extends n.log (run n es).log × (n.commit_index ≤ (run n es).commit_index)
  unfolding run
  run-append_only n [] h = (([], sym (append-nil n.log)), omega arith)
  run-append_only n (e ∷ es) h =
      let m = (step n e).0 in
      let (s, p) = step-Extends n e in
      let ((s', p'), le) = run-append_only m es (step-IsConsistent n e h) in
      (
        (s ++ s', p' ∙ ap (λ l. l ++ s') p ∙ append_assoc n.log s s'),
        omega (arith, step-commit n e h),
      )
