-- ===== src/Latentmesh/Protocol/History.antt =====
-- Sequences of operations on a receive session of src/latentmesh/protocol.rs, and what they mean
-- for a source's epochs and logical sequences.
use ruv_drone.Base.{
  ℕ, ◌<◌, ◌≡◌, refl, sym, ◌⊎◌, inl, inr, List, [], ◌∷◌, Option, none, some, Result, ok, err,
  bind-eq-ok, ok-injective, arith, nat_key, All, AllPairs, All-imp, ◌∙◌, ap, Bool,
}
use ruv_drone.Base.TreeMap.{get, insert}
use ruv_drone.Base.TreeMap.Laws.{get-insert-cases, get-insert_self, get-map_values}
use ruv_drone.Latentmesh.Air.{Air}
use ruv_drone.Latentmesh.Protocol.Types.{
  AdvisoryPeerSnapshot, PeerRuntime, ProtocolError, ReceivedAdvisorySnapshot, ReplayCheckpoint,
  RxSession,
}
use ruv_drone.Latentmesh.Protocol.Session.{
  check_checkpoint, expire_peer, restored, expire_stale, restore_replay_checkpoint,
}
use ruv_drone.Latentmesh.Protocol.Receive.{Outcome, ingest_frame, ingest_frame_bytes}
use ruv_drone.Latentmesh.Protocol.Effects.{
  Admits, Effect, ingest_frame-Effect, ingest_frame_bytes-Effect,
}
use ruv_drone.Latentmesh.Protocol.Progress.{Follows, admit_message-IsAdmission}

-- An epoch and a logical sequence in it.
abbrev pub Mark : Type 0
Mark = ℕ × ℕ

abbrev pub Later : Mark → Mark → Type 0
Later (e, n) (e', n') = (e < e') ⊎ ((e ≡ e') × (n < n'))

module _ (a : Air) where
  -- Every operation that changes a session.
  pub data Operation : Type 0 where
    frame : (source now_ms : ℕ) → a.Frame → Operation
    frame_bytes : (source now_ms : ℕ) → List ℕ → Operation
    expire : (now_ms : ℕ) → Operation
    restore : ReplayCheckpoint → Operation

module _ (a : Air) {D B : Type 0} where
  abbrev peer_mark : PeerRuntime a D B → Mark
  peer_mark p = (p.epoch, p.last_logical_sequence)

  abbrev pub received_mark : ReceivedAdvisorySnapshot a D B → Mark
  received_mark r = (r.metadata.epoch, r.metadata.logical_sequence)

  -- A peer that is there stays, at its mark or a later one.
  abbrev Ahead : RxSession a D B → RxSession a D B → Type 0
  Ahead s t =
      (y : ℕ) (q : PeerRuntime a D B)
      → get y s.peers ≡ some q
      → (p : PeerRuntime a D B) × (get y t.peers ≡ some p)
        × ((peer_mark p ≡ peer_mark q) ⊎ Later (peer_mark q) (peer_mark p))

  -- A snapshot is later than what its source's peer has.
  abbrev pub Beyond : RxSession a D B → ReceivedAdvisorySnapshot a D B → Type 0
  Beyond s r =
      (q : PeerRuntime a D B)
      → get r.metadata.source_id s.peers ≡ some q
      → Later (peer_mark q) (received_mark r)

  abbrev Recorded : RxSession a D B → ReceivedAdvisorySnapshot a D B → Type 0
  Recorded t r =
      (p : PeerRuntime a D B) × (get r.metadata.source_id t.peers ≡ some p)
      × (peer_mark p ≡ received_mark r)

  Follows-Later :
      (existing : Option (PeerRuntime a D B)) (p q : PeerRuntime a D B) (k : Bool)
      → Follows {a = a} existing p k
      → existing ≡ some q
      → Later (peer_mark q) (peer_mark p)
  Follows-Later none p q k f h = cc
  Follows-Later (some o) p q k f h = ground arith

  Ahead-refl : (s t : RxSession a D B) → t.peers ≡ s.peers → Ahead s t
  Ahead-refl s t h y q e = (q, rw h e, inl refl)

  get_inserted :
      (s t : RxSession a D B) (x : ℕ) (p : PeerRuntime a D B)
      → t.peers ≡ insert x p s.peers
      → (y : ℕ) → ((y ≡ x) × (get y t.peers ≡ some p)) ⊎ (get y t.peers ≡ get y s.peers)
  get_inserted s t x p h y = rw h (get-insert-cases y x p s.peers)

  insert-Ahead :
      (s t : RxSession a D B) (x : ℕ) (p : PeerRuntime a D B)
      → t.peers ≡ insert x p s.peers
      → ((q : PeerRuntime a D B) → get x s.peers ≡ some q → Later (peer_mark q) (peer_mark p))
      → Ahead s t
  insert-Ahead s t x p h f y q e = elim (get_inserted s t x p h y) [
    | inl (same, g) ↦ (p, g, inr (f q (rw (← same) e)))
    | inr g ↦ (q, g ∙ e, inl refl)
  ]

module _ (a : Air) {S D B : Type 0}
    (decode : a.Critical → Result S (AdvisoryPeerSnapshot D B)) where
  abbrev pub accepted : Outcome a decode → RxSession a D B × Option (ReceivedAdvisorySnapshot a D B)
  accepted (t, ok r) = (t, r)
  accepted (t, err e) = (t, none)

  -- A restoration that fails leaves the session as it is.
  abbrev pub kept :
      RxSession a D B
      → Result (ProtocolError a.AirError S) (RxSession a D B)
      → RxSession a D B × Option (ReceivedAdvisorySnapshot a D B)
  kept s (ok t) = (t, none)
  kept s (err e) = (s, none)

  -- One operation, and the snapshot that it yields.
  unfoldable pub perform :
      RxSession a D B → Operation a → RxSession a D B × Option (ReceivedAdvisorySnapshot a D B)
  perform s (frame source now_ms f) = accepted (ingest_frame a decode s source now_ms f)
  perform s (frame_bytes source now_ms bytes) =
      accepted (ingest_frame_bytes a decode s source now_ms bytes)
  perform s (expire now_ms) = ((expire_stale a s now_ms).0, none)
  perform s (restore c) = kept s (restore_replay_checkpoint a s c)

  abbrev pub yielded :
      Option (ReceivedAdvisorySnapshot a D B)
      → List (ReceivedAdvisorySnapshot a D B)
      → List (ReceivedAdvisorySnapshot a D B)
  yielded none rs = rs
  yielded (some r) rs = r ∷ rs

  -- The snapshots that a sequence of operations yields.
  unfoldable pub perform_all :
      RxSession a D B → List (Operation a) → List (ReceivedAdvisorySnapshot a D B)
  perform_all s [] = []
  perform_all s (o ∷ os) = let (t, r) = perform s o in let rest = perform_all t os in yielded r rest

  -- What one operation may do.
  abbrev Steps :
      RxSession a D B → RxSession a D B × Option (ReceivedAdvisorySnapshot a D B) → Type 0
  Steps s (t, none) = Ahead a s t
  Steps s (t, some r) = Ahead a s t × Beyond a s r × Recorded a t r

  -- An admission puts a later mark at its source, and leaves the other sources alone.
  Admits-Steps :
      (s t : RxSession a D B) (x now : ℕ) (r : ReceivedAdvisorySnapshot a D B)
      → Admits a decode s x now (t, ok (some r))
      → Steps s (t, some r)
  Admits-Steps s t x now r k =
      let c =
        admit_message-IsAdmission a {S = S} decode s.keys s.config (get x s.peers) k.over x now
          k.fragment_count k.message k.peer k.received k.admission in
      let same : k.received ≡ r = ground (arith, k.outcome) in
      let f : (q : PeerRuntime a D B)
          → get x s.peers ≡ some q
          → Later (peer_mark a q) (peer_mark a k.peer) =
        λ q. Follows-Later a (get x s.peers) k.peer q k.received.metadata.keyframe c.follows in
      let source : r.metadata.source_id ≡ x =
        ap (λ u. u.metadata.source_id) (sym same) ∙ c.source in
      let peers : t.peers ≡ insert x k.peer s.peers = rw (k.new_peers, c.source) refl in
      let mark : peer_mark a k.peer ≡ received_mark a r =
        let (_, e) = c.epoch in let (_, n) = c.sequence in ground arith in
      (
        insert-Ahead a s t x k.peer peers f,
        λ q e. let later = f q (rw (← source) e) in ground arith,
        (k.peer, rw (peers, source) (get-insert_self x k.peer s.peers), mark),
      )

  Effect-Steps :
      (s : RxSession a D B) (x now : ℕ) (o : Outcome a decode)
      → Effect a decode s x now o
      → Steps s (accepted o)
  Effect-Steps s x now (t, err e) (inl k) = Ahead-refl a s t k.same_peers
  Effect-Steps s x now (t, ok none) (inl k) = Ahead-refl a s t k.same_peers
  Effect-Steps s x now (t, ok (some r)) (inl k) = absurd (k.nothing r refl)
  Effect-Steps s x now (t, err e) (inr k) = let h = k.outcome in cc
  Effect-Steps s x now (t, ok none) (inr k) = let h = k.outcome in ground arith
  Effect-Steps s x now (t, ok (some r)) (inr k) = Admits-Steps s t x now r k

  expire-Ahead : (s : RxSession a D B) (now_ms : ℕ) → Ahead a s (expire_stale a s now_ms).0
  unfolding expire_stale
  expire-Ahead s now_ms y q e =
      let p = expire_peer a now_ms s.config.advisory_ttl_ms q in
      (p, rw (get-map_values, e) refl, inl (ground arith))

  check_checkpoint-Later :
      (s : RxSession a D B) (c : ReplayCheckpoint) {u : Unit {0}} (q : PeerRuntime a D B)
      → check_checkpoint a {S = S} s c ≡ ok u
      → get c.source_id s.peers ≡ some q
      → Later (peer_mark a q) (c.epoch, c.last_logical_sequence)
  unfolding check_checkpoint
  check_checkpoint-Later s c q h e = ground arith

  restore-Ahead :
      (s t : RxSession a D B) (c : ReplayCheckpoint)
      → restore_replay_checkpoint a {S = S} s c ≡ ok t
      → Ahead a s t
  unfolding restore_replay_checkpoint
  restore-Ahead s t c h =
      let (_, checked, done) = bind-eq-ok (check_checkpoint a {S = S} s c) _ h in
      insert-Ahead a s t c.source_id (restored a c) (ap (λ u. u.peers) (sym (ok-injective done)))
        (λ q. check_checkpoint-Later s c q checked)

  kept-Steps :
      (s : RxSession a D B) (c : ReplayCheckpoint)
      (r : Result (ProtocolError a.AirError S) (RxSession a D B))
      → restore_replay_checkpoint a s c ≡ r
      → Steps s (kept s r)
  kept-Steps s c (ok t) h = restore-Ahead s t c h
  kept-Steps s c (err e) h = Ahead-refl a s s refl

  perform-Steps : (s : RxSession a D B) (o : Operation a) → Steps s (perform s o)
  unfolding perform
  perform-Steps s (frame x now f) = Effect-Steps s x now _ (ingest_frame-Effect a decode s x now f)
  perform-Steps s (frame_bytes x now bytes) =
      Effect-Steps s x now _ (ingest_frame_bytes-Effect a decode s x now bytes)
  perform-Steps s (expire now) = expire-Ahead s now
  perform-Steps s (restore c) = kept-Steps s c (restore_replay_checkpoint a s c) refl

  -- The second snapshot of one source is later than the first.
  abbrev pub Supersedes : ReceivedAdvisorySnapshot a D B → ReceivedAdvisorySnapshot a D B → Type 0
  Supersedes r r' =
      r'.metadata.source_id ≡ r.metadata.source_id → Later (received_mark a r) (received_mark a r')

  Beyond-of_Ahead :
      (s t : RxSession a D B) (r : ReceivedAdvisorySnapshot a D B)
      → Ahead a s t
      → Beyond a t r
      → Beyond a s r
  Beyond-of_Ahead s t r h b q e =
      let (p, g, m) = h r.metadata.source_id q e in let later = b p g in ground arith

  Supersedes-of_Recorded :
      (t : RxSession a D B) (r r' : ReceivedAdvisorySnapshot a D B)
      → Recorded a t r
      → Beyond a t r'
      → Supersedes r r'
  Supersedes-of_Recorded t r r' (p, g, m) b h = let later = b p (rw h g) in ground arith

  yielded-AllPairs :
      (s : RxSession a D B) (o : RxSession a D B × Option (ReceivedAdvisorySnapshot a D B))
      (rs : List (ReceivedAdvisorySnapshot a D B))
      → Steps s o
      → All (Beyond a o.0) rs × AllPairs Supersedes rs
      → All (Beyond a s) (yielded o.1 rs) × AllPairs Supersedes (yielded o.1 rs)
  yielded-AllPairs s (t, none) rs h (b, p) = (All-imp rs (λ r. Beyond-of_Ahead s t r h) b, p)
  yielded-AllPairs s (t, some r) rs (h, new, recorded) (b, p) = (
    (new, All-imp rs (λ r'. Beyond-of_Ahead s t r' h) b),
    (All-imp rs (λ r'. Supersedes-of_Recorded t r r' recorded) b, p),
  )

  -- Whatever frames arrive, in whatever order, with expiry and restored checkpoints in between: of
  -- two snapshots of one source that a session yields, the second has a later epoch, or the same
  -- epoch and a greater logical sequence. The first snapshots lie beyond what the session had.
  pub perform_all-Supersedes :
      (s : RxSession a D B) (os : List (Operation a))
      → All (Beyond a s) (perform_all s os) × AllPairs Supersedes (perform_all s os)
  unfolding perform_all
  perform_all-Supersedes s [] = (tt, tt)
  perform_all-Supersedes s (o ∷ os) =
      yielded-AllPairs s (perform s o) _ (perform-Steps s o)
        (perform_all-Supersedes (perform s o).0 os)
