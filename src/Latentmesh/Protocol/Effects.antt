-- ===== src/Latentmesh/Protocol/Effects.antt =====
-- What receiving a frame does to the peers of a session of src/latentmesh/protocol.rs: nothing, or
-- the one insertion that follows an admission.
use ruv_drone.Base.{
  ℕ, ◌≡◌, ◌≢◌, refl, sym, subst, ◌⊎◌, inl, inr, Bool, true, false, ltb, Option, none, some, Result,
  ok, err, Result-cases, Bool-cases, not, ◌&&◌, ◌==◌, ◌>>=◌, arith, nat_key, List, reject_if-eq-ok,
  bind-eq-ok, saturating_add,
}
use ruv_drone.Base.TreeMap.{TreeMap, contains_key, get, insert}
use ruv_drone.Latentmesh.Air.{Air}
use ruv_drone.Latentmesh.Protocol.Types.{
  AdvisoryPeerSnapshot, PeerIngress, PeerRuntime, ProtocolError, ReceivedAdvisorySnapshot,
  RxSession, ProtocolMetrics, peer_capacity, lift_air,
}
use ruv_drone.Latentmesh.Protocol.Ingress.{ingest_fragment, new_ingress}
use ruv_drone.Latentmesh.Protocol.Admit.{admit_message}
use ruv_drone.Latentmesh.Protocol.Session.{active_source_count, check_frame, open_ingress}
use ruv_drone.Latentmesh.Protocol.Receive.{
  Outcome, admit_complete, count_frame, ingest_decoded_frame, ingest_decoding, ingest_frame,
  ingest_frame_bytes, ingest_opened, ingest_ready, ingest_checked, record_outcome, settle_fragment,
}

-- A source that has no ingress is given one, within the capacity; nothing else changes.
pub open_ingress-inv :
    (a : Air) {S D B : Type 0} (s t : RxSession a D B) (x now : ℕ)
    → open_ingress a {S = S} s x now ≡ ok t
    → ((contains_key x s.ingress ≡ true) × (t ≡ s))
      ⊎ ((i : PeerIngress a) × (contains_key x s.ingress ≡ false)
          × (not (contains_key x s.peers) && active_source_count a s == s.config.max_peers ≡ false)
          × (t ≡ (record s { ingress = insert x i s.ingress })))
unfolding open_ingress
open_ingress-inv a {S} s t x now h = elim (Bool-cases (contains_key x s.ingress)) [
  | inl e ↦ inl (e, ground arith)
  | inr e ↦
      let full = not (contains_key x s.peers) && active_source_count a s == s.config.max_peers in
      let (room, h') =
        reject_if-eq-ok full (peer_capacity s.config.max_peers) _ (rw (e, ◌>>=◌) at h) in
      let (i, _, h'') =
        bind-eq-ok (lift_air {S = S} (new_ingress a s.config.reassembly now)) _ h' in
      inr (i, e, room, ground arith)
]

module _ (a : Air) {S D B : Type 0}
    (decode : a.Critical → Result S (AdvisoryPeerSnapshot D B)) where
  abbrev pub Accepts : Outcome a decode → Type 0
  Accepts o = (r : ReceivedAdvisorySnapshot a D B) × (o.1 ≡ ok (some r))

  -- No snapshot came out, and the peers are as they were.
  pub record Keeps (s : RxSession a D B) (o : Outcome a decode) : Type 0 where
    pub same_peers : o.0.peers ≡ s.peers
    pub nothing : (r : ReceivedAdvisorySnapshot a D B) → o.1 ≢ ok (some r)

  -- A message was admitted against the peer that the source had, and took its place.
  pub record Admits (s : RxSession a D B) (expected now_ms : ℕ) (o : Outcome a decode)
      : Type 0 where
    pub peer : PeerRuntime a D B
    pub received : ReceivedAdvisorySnapshot a D B
    pub over : Bool
    pub fragment_count : ℕ
    pub message : a.Message
    pub admission :
        admit_message a decode s.keys s.config
          (get expected s.peers)
          over
          expected
          now_ms
          fragment_count
          message
        ≡ ok (peer, received)
    pub new_peers : o.0.peers ≡ insert received.metadata.source_id peer s.peers
    pub outcome : o.1 ≡ ok (some received)

  abbrev pub Effect : RxSession a D B → ℕ → ℕ → Outcome a decode → Type 0
  Effect s expected now_ms o = Keeps s o ⊎ Admits s expected now_ms o

  -- The session with another ingress map and other counters.
  abbrev moved : RxSession a D B → TreeMap ℕ (PeerIngress a) → ProtocolMetrics → RxSession a D B
  moved s i w = record s { ingress = i; metrics = w }

  module _ (s : RxSession a D B) (x now : ℕ) where
    admit_complete-Effect :
        (i : TreeMap ℕ (PeerIngress a)) (w : ProtocolMetrics) (n : ℕ) (m : a.Message)
        → Effect s x now (admit_complete a decode (moved s i w) x now n m)
    unfolding admit_complete
    admit_complete-Effect i w n m =
        let over = ltb s.config.max_peers (active_source_count a (moved s i w)) in
        elim (Result-cases
          (admit_message a decode s.keys s.config (get x s.peers) over x now n m)) [
            | inl ((p, r), e) ↦ inr (record {
              peer = p;
              received = r;
              over = over;
              fragment_count = n;
              message = m;
              admission = e;
              new_peers = rw e;
              outcome = rw e;
            })
            | inr (x', e) ↦ inl (record { same_peers = rw e; nothing = λ r. rw e (λ h. cc) })
          ]

    settle_fragment-Effect :
        (i : TreeMap ℕ (PeerIngress a)) (w : ProtocolMetrics) (n : ℕ)
        (r : PeerIngress a × Result (ProtocolError a.AirError S) (Option a.Message))
        → Effect s x now (settle_fragment a decode (moved s i w) x now n r)
    unfolding settle_fragment
    settle_fragment-Effect i w n (j, err e) =
        inl (record { same_peers = refl; nothing = λ r h. cc })
    settle_fragment-Effect i w n (j, ok none) =
        inl (record { same_peers = refl; nothing = λ r h. ground arith })
    settle_fragment-Effect i w n (j, ok (some m)) =
        admit_complete-Effect (insert x j i)
          (record w { completed_envelopes = saturating_add w.completed_envelopes 1 }) n m

    ingest_opened-Effect :
        (i : TreeMap ℕ (PeerIngress a)) (w : ProtocolMetrics) (frame : a.Frame)
        (o : Option (PeerIngress a))
        → Effect s x now (ingest_opened a decode (moved s i w) x now frame o)
    unfolding ingest_opened
    ingest_opened-Effect i w frame none = inl (record { same_peers = refl; nothing = λ r h. cc })
    ingest_opened-Effect i w frame (some j) =
        settle_fragment-Effect i w (a.frame_fragment_count frame)
          (ingest_fragment a s.config x now frame j)

  ingest_ready-Effect :
      (s : RxSession a D B) (x now : ℕ) (w : ProtocolMetrics) (frame : a.Frame)
      (r : Result (ProtocolError a.AirError S) (RxSession a D B))
      → open_ingress a (record s { metrics = w }) x now ≡ r
      → Effect s x now (ingest_ready a decode (record s { metrics = w }) x now frame r)
  unfolding ingest_ready
  ingest_ready-Effect s x now w frame (err e) h =
      inl (record { same_peers = refl; nothing = λ r h'. cc })
  ingest_ready-Effect s x now w frame (ok t) h =
      elim (open_ingress-inv a (record s { metrics = w }) t x now h) [
        | inl (_, e) ↦
            subst (λ u. Effect s x now (ingest_opened a decode u x now frame (get x u.ingress)))
              (sym e) (ingest_opened-Effect s x now s.ingress w frame (get x s.ingress))
        | inr (i, _, _, e) ↦
            subst (λ u. Effect s x now (ingest_opened a decode u x now frame (get x u.ingress)))
              (sym e)
              (ingest_opened-Effect s x now (insert x i s.ingress) w frame
                (get x (insert x i s.ingress)))
      ]

  ingest_decoded_frame-Effect :
      (s : RxSession a D B) (x now : ℕ) (w : ProtocolMetrics) (frame : a.Frame)
      → Effect s x now (ingest_decoded_frame a decode (record s { metrics = w }) x now frame)
  unfolding ingest_decoded_frame
  ingest_decoded_frame-Effect s x now w frame =
      elim (check_frame a {S = S} (record s { metrics = w }) x frame)
        as (λ r.
          Effect s x now (ingest_checked a decode (record s { metrics = w }) x now frame r)) [
            | err e ↦ inl (record { same_peers = refl; nothing = λ r h. cc })
            | ok _ ↦ ingest_ready-Effect s x now w frame _ refl
          ]

  record_outcome-Effect :
      (s : RxSession a D B) (x now : ℕ) (o : Outcome a decode)
      → Effect s x now o
      → Effect s x now (record_outcome a decode o)
  record_outcome-Effect s x now (t, r) (inl k) =
      inl (record { same_peers = k.same_peers; nothing = k.nothing })
  record_outcome-Effect s x now (t, r) (inr k) = inr (record {
    peer = k.peer;
    received = k.received;
    over = k.over;
    fragment_count = k.fragment_count;
    message = k.message;
    admission = k.admission;
    new_peers = k.new_peers;
    outcome = k.outcome;
  })

  ingest_decoding-Effect :
      (s : RxSession a D B) (x now : ℕ) (w : ProtocolMetrics)
      (r : Result (ProtocolError a.AirError S) a.Frame)
      → Effect s x now (ingest_decoding a decode (record s { metrics = w }) x now r)
  unfolding ingest_decoding
  ingest_decoding-Effect s x now w (err e) = inl (record { same_peers = refl; nothing = λ r h. cc })
  ingest_decoding-Effect s x now w (ok frame) = ingest_decoded_frame-Effect s x now w frame

  -- A frame leaves every peer as it is and yields nothing, or yields the snapshot of one admitted
  -- message, whose peer alone is replaced.
  pub ingest_frame-Effect :
      (s : RxSession a D B) (x now : ℕ) (frame : a.Frame)
      → Effect s x now (ingest_frame a decode s x now frame)
  unfolding ingest_frame
  ingest_frame-Effect s x now frame =
      record_outcome-Effect s x now _
        (ingest_decoded_frame-Effect s x now (count_frame a decode s).metrics frame)

  pub ingest_frame_bytes-Effect :
      (s : RxSession a D B) (x now : ℕ) (bytes : List ℕ)
      → Effect s x now (ingest_frame_bytes a decode s x now bytes)
  unfolding ingest_frame_bytes
  ingest_frame_bytes-Effect s x now bytes = record_outcome-Effect s x now _ (
      ingest_decoding-Effect s x now (count_frame a decode s).metrics
        (lift_air (a.decode_frame bytes)))
