-- ===== src/Latentmesh/Protocol/Sources.antt =====
-- The number of sources that a receive session of src/latentmesh/protocol.rs keeps.
use ruv_drone.Base.{
  ℕ, ◌+◌, ◌≤◌, ◌≡◌, refl, sym, subst, ◌⊎◌, inl, inr, true, false, ◌==◌, ltb, List, [], ◌∷◌, Option,
  none, some, Result, ok, err, bind-eq-ok, ok-injective, arith, length, nat_key,
}
use ruv_drone.Base.TreeMap.{contains_key, get, insert}
use ruv_drone.Latentmesh.Air.{Air}
use ruv_drone.Latentmesh.Protocol.Types.{
  AdvisoryPeerSnapshot, PeerIngress, PeerRuntime, ProtocolError, ReceivedAdvisorySnapshot,
  ReplayCheckpoint, RxConfig, RxSession, lift_air, validate,
}
use ruv_drone.Latentmesh.Protocol.Ingress.{ingest_fragment}
use ruv_drone.Latentmesh.Protocol.Admit.{admit_message}
use ruv_drone.Latentmesh.Protocol.Session.{
  active_source_count, check_checkpoint, check_frame, count_fresh, expire_peer, expire_stale, new,
  open_ingress, restore_replay_checkpoint, restored,
}
use ruv_drone.Latentmesh.Protocol.Receive.{
  Outcome, admit_complete, ingest_checked, ingest_decoded_frame, ingest_decoding, ingest_frame,
  ingest_frame_bytes, ingest_opened, ingest_ready, record_outcome, settle_admission,
  settle_fragment, count_completed, count_frame,
}
use ruv_drone.Latentmesh.Protocol.Effects.{open_ingress-inv}
use ruv_drone.Latentmesh.Protocol.Progress.{admit_message-IsAdmission}
use ruv_drone.Latentmesh.Protocol.Counting.{
  Room, Room-admit, Room-map_values, Room-open, Room-replace, Room-restore, contains_key-insert,
}
use ruv_drone.Latentmesh.Protocol.History.{
  Operation, frame, frame_bytes, expire, restore, accepted, kept, perform,
}
use ruv_drone.Latentmesh.Protocol.Capacity.{perform_each, perform_each-new}

module _ (a : Air) {D B : Type 0} where
  abbrev HasRoom : RxSession a D B → Type 0
  HasRoom s = Room s.peers s.ingress s.config.max_peers

module _ (a : Air) {S D B : Type 0}
    (decode : a.Critical → Result S (AdvisoryPeerSnapshot D B)) where
  admit_complete-HasRoom :
      (s : RxSession a D B) (x now n : ℕ) (m : a.Message)
      (r : Result (ProtocolError a.AirError S) (PeerRuntime a D B × ReceivedAdvisorySnapshot a D B))
      → admit_message a decode s.keys s.config
          (get x s.peers)
          (ltb s.config.max_peers (active_source_count a s))
          x
          now
          n
          m
        ≡ r
      → contains_key x s.ingress ≡ true
      → HasRoom a s
      → HasRoom a (settle_admission a decode s r).0
  unfolding settle_admission
  admit_complete-HasRoom s x now n m (err e) g k h = h
  admit_complete-HasRoom s x now n m (ok (p, r)) g k h =
      let c =
        admit_message-IsAdmission a {S = S} decode s.keys s.config (get x s.peers) _ x now n m p r
          g in
      Room-admit s.peers s.ingress s.config.max_peers r.metadata.source_id p (rw c.source k) h

  settle_fragment-HasRoom :
      (s : RxSession a D B) (x now n : ℕ)
      (r : PeerIngress a × Result (ProtocolError a.AirError S) (Option a.Message))
      → contains_key x s.ingress ≡ true
      → HasRoom a s
      → HasRoom a (settle_fragment a decode s x now n r).0
  unfolding settle_fragment admit_complete
  settle_fragment-HasRoom s x now n (i, err e) k h =
      Room-replace s.peers s.ingress s.config.max_peers x i k h
  settle_fragment-HasRoom s x now n (i, ok none) k h =
      Room-replace s.peers s.ingress s.config.max_peers x i k h
  settle_fragment-HasRoom s x now n (i, ok (some m)) k h =
      let t = count_completed a decode (record s { ingress = insert x i s.ingress }) in
      let there : contains_key x t.ingress ≡ true =
        ground (arith, contains_key-insert x x i s.ingress) in
      admit_complete-HasRoom t x now n m _ refl there
        (Room-replace s.peers s.ingress s.config.max_peers x i k h)

  ingest_opened-HasRoom :
      (s : RxSession a D B) (x now : ℕ) (f : a.Frame) (o : Option (PeerIngress a))
      → contains_key x s.ingress ≡ true
      → HasRoom a s
      → HasRoom a (ingest_opened a decode s x now f o).0
  unfolding ingest_opened
  ingest_opened-HasRoom s x now f none k h = h
  ingest_opened-HasRoom s x now f (some i) k h =
      settle_fragment-HasRoom s x now (a.frame_fragment_count f)
        (ingest_fragment a s.config x now f i) k h

  open_ingress-HasRoom :
      (s t : RxSession a D B) (x now : ℕ)
      → open_ingress a {S = S} s x now ≡ ok t
      → HasRoom a s
      → (contains_key x t.ingress ≡ true) × HasRoom a t
  unfolding active_source_count
  open_ingress-HasRoom s t x now e h = elim (open_ingress-inv a s t x now e) [
    | inl (there, same) ↦
        subst (λ u. (contains_key x u.ingress ≡ true) × HasRoom a u) (sym same) (there, h)
    | inr (i, absent, room, opened) ↦
        subst (λ u. (contains_key x u.ingress ≡ true) × HasRoom a u) (sym opened)
          (
            ground (arith, contains_key-insert x x i s.ingress),
            Room-open s.peers s.ingress s.config.max_peers x i absent room h,
          )
  ]

  ingest_ready-HasRoom :
      (s : RxSession a D B) (x now : ℕ) (f : a.Frame)
      (r : Result (ProtocolError a.AirError S) (RxSession a D B))
      → open_ingress a s x now ≡ r
      → HasRoom a s
      → HasRoom a (ingest_ready a decode s x now f r).0
  unfolding ingest_ready
  ingest_ready-HasRoom s x now f (err e) g h = h
  ingest_ready-HasRoom s x now f (ok t) g h =
      let (there, room) = open_ingress-HasRoom s t x now g h in
      ingest_opened-HasRoom t x now f (get x t.ingress) there room

  ingest_checked-HasRoom :
      (s : RxSession a D B) (x now : ℕ) (f : a.Frame)
      (r : Result (ProtocolError a.AirError S) (Unit {0}))
      → HasRoom a s
      → HasRoom a (ingest_checked a decode s x now f r).0
  unfolding ingest_checked
  ingest_checked-HasRoom s x now f (err e) h = h
  ingest_checked-HasRoom s x now f (ok _) h =
      ingest_ready-HasRoom s x now f (open_ingress a s x now) refl h

  ingest_decoding-HasRoom :
      (s : RxSession a D B) (x now : ℕ) (r : Result (ProtocolError a.AirError S) a.Frame)
      → HasRoom a s
      → HasRoom a (ingest_decoding a decode s x now r).0
  unfolding ingest_decoding ingest_decoded_frame
  ingest_decoding-HasRoom s x now (err e) h = h
  ingest_decoding-HasRoom s x now (ok f) h =
      ingest_checked-HasRoom s x now f (check_frame a s x f) h

  record_outcome-HasRoom :
      (o : Outcome a decode)
      → HasRoom a o.0
      → HasRoom a (accepted a decode (record_outcome a decode o)).0
  record_outcome-HasRoom (t, ok r) h = h
  record_outcome-HasRoom (t, err e) h = h

  check_checkpoint-room :
      (s : RxSession a D B) (k : ReplayCheckpoint) {u : Unit {0}}
      → check_checkpoint a {S = S} s k ≡ ok u
      → (contains_key k.source_id s.peers ≡ true)
        ⊎ (length s.peers + count_fresh s.peers s.ingress == s.config.max_peers ≡ false)
  unfolding check_checkpoint contains_key active_source_count
  check_checkpoint-room s k h = ground arith

  kept-HasRoom :
      (s : RxSession a D B) (k : ReplayCheckpoint)
      (r : Result (ProtocolError a.AirError S) (RxSession a D B))
      → restore_replay_checkpoint a s k ≡ r
      → HasRoom a s
      → HasRoom a (kept a decode s r).0
  unfolding restore_replay_checkpoint
  kept-HasRoom s k (err e) g h = h
  kept-HasRoom s k (ok t) g h =
      let (_, checked, done) = bind-eq-ok (check_checkpoint a {S = S} s k) _ g in
      subst (λ u. HasRoom a u) (ok-injective done)
        (Room-restore s.peers s.ingress s.config.max_peers k.source_id (restored a k)
          (check_checkpoint-room s k checked) h)

  perform-HasRoom :
      (s : RxSession a D B) (o : Operation a) → HasRoom a s → HasRoom a (perform a decode s o).0
  unfolding perform ingest_frame ingest_frame_bytes ingest_decoded_frame expire_stale
  perform-HasRoom s (frame x now f) h =
      let t = count_frame a decode s in
      record_outcome-HasRoom (ingest_decoded_frame a decode t x now f)
        (ingest_checked-HasRoom t x now f (check_frame a t x f) h)
  perform-HasRoom s (frame_bytes x now bytes) h =
      let t = count_frame a decode s in
      record_outcome-HasRoom (ingest_decoding a decode t x now (lift_air (a.decode_frame bytes)))
        (ingest_decoding-HasRoom t x now (lift_air (a.decode_frame bytes)) h)
  perform-HasRoom s (expire now) h =
      Room-map_values s.peers s.ingress s.config.max_peers
        (expire_peer a now s.config.advisory_ttl_ms) h
  perform-HasRoom s (restore r) h = kept-HasRoom s r (restore_replay_checkpoint a s r) refl h

  perform_each-HasRoom :
      (s : RxSession a D B) (os : List (Operation a))
      → HasRoom a s
      → HasRoom a (perform_each a decode s os)
  unfolding perform_each
  perform_each-HasRoom s [] h = h
  perform_each-HasRoom s (o ∷ os) h =
      perform_each-HasRoom (perform a decode s o).0 os (perform-HasRoom s o h)

  -- In a new session, after any operations, the peers and the sources that are only received from
  -- are together no more than the configured capacity.
  pub active_source_count-le :
      (keys : ℕ → Option a.VerifyingKey) (c : RxConfig a) (s : RxSession a D B)
      (os : List (Operation a))
      → new a {S = S} keys c ≡ ok s
      → active_source_count a (perform_each a decode s os) ≤ c.max_peers
  unfolding new active_source_count count_fresh
  active_source_count-le keys c s os h =
      let (_, _, made) = bind-eq-ok (validate a {S = S} c) _ h in
      let start : HasRoom a s =
        subst (λ u. HasRoom a u) (ok-injective made) (tt, tt, omega arith) in
      let (_, _, room) = perform_each-HasRoom s os start in
      rw (← (perform_each-new a decode keys c s os h).same_config) room
