-- ===== src/Latentmesh/Protocol/Capacity.antt =====
-- The limits of src/latentmesh/protocol.rs over the life of a receive session.
use ruv_drone.Base.{
  ℕ, ◌≡◌, refl, sym, ap, ◌∙◌, subst, inl, inr, Bool-cases, not, ◌&&◌, ◌==◌, ltb, reject_if-eq-ok,
  List, [], ◌∷◌, Option, none, some, Result, ok, err, bind-eq-ok, ◌>>=◌, ok-injective, arith,
  nat_key,
}
use ruv_drone.Base.TreeMap.{contains_key, get, insert}
use ruv_drone.Base.TreeMap.Laws.{get-insert-cases}
use ruv_drone.Latentmesh.Air.{Air}
use ruv_drone.Latentmesh.Protocol.Types.{
  AdvisoryPeerSnapshot, PeerIngress, PeerRuntime, ProtocolError, ReceivedAdvisorySnapshot,
  ReplayCheckpoint, RxConfig, RxSession, lift_air, peer_capacity, validate,
}
use ruv_drone.Latentmesh.Protocol.Ingress.{new_ingress}
use ruv_drone.Latentmesh.Protocol.Admit.{admit_message}
use ruv_drone.Latentmesh.Protocol.Session.{
  active_source_count, check_checkpoint, check_frame, expire_stale, new, open_ingress,
  restore_replay_checkpoint,
}
use ruv_drone.Latentmesh.Protocol.Receive.{
  Outcome, admit_complete, ingest_checked, ingest_decoded_frame, ingest_decoding, ingest_frame,
  ingest_frame_bytes, ingest_opened, ingest_ready, record_outcome, settle_admission,
  settle_fragment, count_completed, count_frame,
}
use ruv_drone.Latentmesh.Protocol.Admitted.{lift_air-eq-ok}
use ruv_drone.Latentmesh.Protocol.Limits.{IsWithin, ingest_fragment-IsWithin, new_ingress-IsWithin}
use ruv_drone.Latentmesh.Protocol.History.{
  Operation, frame, frame_bytes, expire, restore, accepted, kept, perform,
}

module _ (a : Air) {D B : Type 0} where
  -- Every source's receive path is within the limits of the configuration.
  pub record IsLimited (c : RxConfig a) (s : RxSession a D B) : Type 0 where
    pub same_config : s.config ≡ c
    pub within : (y : ℕ) (i : PeerIngress a) → get y s.ingress ≡ some i → IsWithin a c i

  -- The session with another receive path for one source.
  IsLimited-insert :
      (c : RxConfig a) (s t : RxSession a D B) (x : ℕ) (i : PeerIngress a)
      → IsLimited c s
      → IsWithin a c i
      → t.config ≡ s.config
      → t.ingress ≡ insert x i s.ingress
      → IsLimited c t
  IsLimited-insert c s t x i h w e e' = record {
    same_config = e ∙ h.same_config;
    within = λ y j g. elim (get-insert-cases y x i s.ingress) [
      | inl (_, k) ↦ subst (λ u. IsWithin a c u) (ground arith) w
      | inr k ↦ h.within y j (sym k ∙ ap (get y) (sym e') ∙ g)
    ];
  }

  pub IsLimited-same :
      (c : RxConfig a) (s t : RxSession a D B)
      → IsLimited c s
      → t.config ≡ s.config
      → t.ingress ≡ s.ingress
      → IsLimited c t
  IsLimited-same c s t h e e' = record {
    same_config = e ∙ h.same_config;
    within = λ y j g. h.within y j (ap (get y) (sym e') ∙ g);
  }

module _ (a : Air) {S D B : Type 0}
    (decode : a.Critical → Result S (AdvisoryPeerSnapshot D B)) where
  module _ (c : RxConfig a) where
    settle_admission-IsLimited :
        (s : RxSession a D B)
        (r : Result
          (ProtocolError a.AirError S)
          (PeerRuntime a D B × ReceivedAdvisorySnapshot a D B))
        → IsLimited a c s
        → IsLimited a c (settle_admission a decode s r).0
    unfolding settle_admission
    settle_admission-IsLimited s (err e) h = h
    settle_admission-IsLimited s (ok (p, r)) h = IsLimited-same a c s _ h refl refl

    admit_complete-IsLimited :
        (s : RxSession a D B) (x now n : ℕ) (m : a.Message)
        → IsLimited a c s
        → IsLimited a c (admit_complete a decode s x now n m).0
    unfolding admit_complete
    admit_complete-IsLimited s x now n m h =
        settle_admission-IsLimited s
          (admit_message a decode s.keys s.config (get x s.peers)
            (ltb s.config.max_peers (active_source_count a s)) x now n m)
          h

    settle_fragment-IsLimited :
        (s : RxSession a D B) (x now n : ℕ)
        (r : PeerIngress a × Result (ProtocolError a.AirError S) (Option a.Message))
        → IsLimited a c s
        → IsWithin a c r.0
        → IsLimited a c (settle_fragment a decode s x now n r).0
    unfolding settle_fragment
    settle_fragment-IsLimited s x now n (i, err e) h w = IsLimited-insert a c s _ x i h w refl refl
    settle_fragment-IsLimited s x now n (i, ok none) h w =
        IsLimited-insert a c s _ x i h w refl refl
    settle_fragment-IsLimited s x now n (i, ok (some m)) h w =
        let t = count_completed a decode (record s { ingress = insert x i s.ingress }) in
        admit_complete-IsLimited t x now n m (IsLimited-insert a c s t x i h w refl refl)

    ingest_opened-IsLimited :
        (s : RxSession a D B) (x now : ℕ) (f : a.Frame) (o : Option (PeerIngress a))
        → get x s.ingress ≡ o
        → IsLimited a c s
        → IsLimited a c (ingest_opened a decode s x now f o).0
    unfolding ingest_opened
    ingest_opened-IsLimited s x now f none e h = h
    ingest_opened-IsLimited s x now f (some i) e h =
        settle_fragment-IsLimited s x now (a.frame_fragment_count f) _ h
          (rw h.same_config (ingest_fragment-IsWithin a S c x now f i (h.within x i e)))

    pub open_ingress-IsLimited :
        (s t : RxSession a D B) (x now : ℕ)
        → open_ingress a {S = S} s x now ≡ ok t
        → IsLimited a c s
        → IsLimited a c t
    unfolding open_ingress
    open_ingress-IsLimited s t x now e h = elim (Bool-cases (contains_key x s.ingress)) [
      | inl there ↦ let same : s ≡ t = ground arith in subst (λ u. IsLimited a c u) same h
      | inr absent ↦
          let full =
            not (contains_key x s.peers) && active_source_count a s == s.config.max_peers in
          let (_, e') =
            reject_if-eq-ok full (peer_capacity s.config.max_peers) _ (rw (absent, ◌>>=◌) at e) in
          let (i, made, e'') =
            bind-eq-ok (lift_air {S = S} (new_ingress a s.config.reassembly now)) _ e' in
          let w = new_ingress-IsWithin a s.config now (lift_air-eq-ok a {S = S} _ made) in
          subst (λ u. IsLimited a c u) (ok-injective e'')
            (IsLimited-insert a c s _ x i h (rw (← h.same_config) w) refl refl)
    ]

    ingest_ready-IsLimited :
        (s : RxSession a D B) (x now : ℕ) (f : a.Frame)
        (r : Result (ProtocolError a.AirError S) (RxSession a D B))
        → open_ingress a s x now ≡ r
        → IsLimited a c s
        → IsLimited a c (ingest_ready a decode s x now f r).0
    unfolding ingest_ready
    ingest_ready-IsLimited s x now f (err e) g h = h
    ingest_ready-IsLimited s x now f (ok t) g h =
        ingest_opened-IsLimited t x now f (get x t.ingress) refl
          (open_ingress-IsLimited s t x now g h)

    ingest_checked-IsLimited :
        (s : RxSession a D B) (x now : ℕ) (f : a.Frame)
        (r : Result (ProtocolError a.AirError S) (Unit {0}))
        → IsLimited a c s
        → IsLimited a c (ingest_checked a decode s x now f r).0
    unfolding ingest_checked
    ingest_checked-IsLimited s x now f (err e) h = h
    ingest_checked-IsLimited s x now f (ok _) h =
        ingest_ready-IsLimited s x now f (open_ingress a s x now) refl h

    ingest_decoding-IsLimited :
        (s : RxSession a D B) (x now : ℕ) (r : Result (ProtocolError a.AirError S) a.Frame)
        → IsLimited a c s
        → IsLimited a c (ingest_decoding a decode s x now r).0
    unfolding ingest_decoding ingest_decoded_frame
    ingest_decoding-IsLimited s x now (err e) h = h
    ingest_decoding-IsLimited s x now (ok f) h =
        ingest_checked-IsLimited s x now f (check_frame a s x f) h

    record_outcome-IsLimited :
        (o : Outcome a decode)
        → IsLimited a c o.0
        → IsLimited a c (accepted a decode (record_outcome a decode o)).0
    record_outcome-IsLimited (t, ok r) h = IsLimited-same a c t _ h refl refl
    record_outcome-IsLimited (t, err e) h = IsLimited-same a c t _ h refl refl

    kept-IsLimited :
        (s : RxSession a D B) (k : ReplayCheckpoint)
        (r : Result (ProtocolError a.AirError S) (RxSession a D B))
        → restore_replay_checkpoint a s k ≡ r
        → IsLimited a c s
        → IsLimited a c (kept a decode s r).0
    unfolding restore_replay_checkpoint
    kept-IsLimited s k (err e) g h = h
    kept-IsLimited s k (ok t) g h =
        let (_, _, done) = bind-eq-ok (check_checkpoint a {S = S} s k) _ g in
        subst (λ u. IsLimited a c u) (ok-injective done) (IsLimited-same a c s _ h refl refl)

    pub perform-IsLimited :
        (s : RxSession a D B) (o : Operation a)
        → IsLimited a c s
        → IsLimited a c (perform a decode s o).0
    unfolding perform ingest_frame ingest_frame_bytes ingest_decoded_frame expire_stale
    perform-IsLimited s (frame x now f) h =
        let t = count_frame a decode s in
        record_outcome-IsLimited (ingest_decoded_frame a decode t x now f) (
          ingest_checked-IsLimited t x now f (check_frame a t x f)
            (IsLimited-same a c s t h refl refl))
    perform-IsLimited s (frame_bytes x now bytes) h =
        let t = count_frame a decode s in
        record_outcome-IsLimited
          (ingest_decoding a decode t x now (lift_air (a.decode_frame bytes)))
          (ingest_decoding-IsLimited t x now (lift_air (a.decode_frame bytes))
            (IsLimited-same a c s t h refl refl))
    perform-IsLimited s (expire now) h = IsLimited-same a c s _ h refl refl
    perform-IsLimited s (restore r) h = kept-IsLimited s r (restore_replay_checkpoint a s r) refl h

  -- The session after a sequence of operations.
  unfoldable pub perform_each : RxSession a D B → List (Operation a) → RxSession a D B
  perform_each s [] = s
  perform_each s (o ∷ os) = perform_each (perform a decode s o).0 os

  perform_each-IsLimited :
      (c : RxConfig a) (s : RxSession a D B) (os : List (Operation a))
      → IsLimited a c s
      → IsLimited a c (perform_each s os)
  unfolding perform_each
  perform_each-IsLimited c s [] h = h
  perform_each-IsLimited c s (o ∷ os) h =
      perform_each-IsLimited c (perform a decode s o).0 os (perform-IsLimited c s o h)

  -- In a new session, after any operations, no source keeps more contexts under reassembly than the
  -- configuration allows, and the frame counter of its window is within the configured limit.
  pub perform_each-new :
      (keys : ℕ → Option a.VerifyingKey) (c : RxConfig a) (s : RxSession a D B)
      (os : List (Operation a))
      → new a {S = S} keys c ≡ ok s
      → IsLimited a c (perform_each s os)
  unfolding new get
  perform_each-new keys c s os h =
      let (_, _, made) = bind-eq-ok (validate a {S = S} c) _ h in
      perform_each-IsLimited c s os (
        subst (λ u. IsLimited a c u) (ok-injective made)
          (record { same_config = refl; within = λ y i g. ground arith }))
