-- ===== src/Latentmesh/Protocol/Receive.antt =====
-- Receiving a frame in src/latentmesh/protocol.rs: `ingest_frame`, `ingest_frame_bytes` and what
-- they call. `decode` is `from_critical_state` of src/latentmesh/state.rs.
use ruv_drone.Base.{ℕ, ltb, List, Option, none, some, Result, ok, err, saturating_add, nat_key}
use ruv_drone.Base.TreeMap.{get, insert}
use ruv_drone.Latentmesh.Air.{Air}
use ruv_drone.Latentmesh.Protocol.Types.{
  AdvisoryPeerSnapshot, PeerIngress, PeerRuntime, ProtocolError, ReceivedAdvisorySnapshot,
  RxSession, ingress_unavailable, lift_air,
}
use ruv_drone.Latentmesh.Protocol.Ingress.{ingest_fragment}
use ruv_drone.Latentmesh.Protocol.Admit.{admit_message}
use ruv_drone.Latentmesh.Protocol.Session.{
  active_source_count, check_frame, open_ingress, record_result,
}

module _ (a : Air) {S D B : Type 0}
    (decode : a.Critical → Result S (AdvisoryPeerSnapshot D B)) where
  -- What an operation returns: the session, and the result.
  abbrev pub Outcome : Type 0
  Outcome =
      RxSession a D B
      × Result (ProtocolError a.AirError S) (Option (ReceivedAdvisorySnapshot a D B))

  abbrev pub count_completed : RxSession a D B → RxSession a D B
  count_completed s = record s {
    metrics = record (s.metrics) {
      completed_envelopes = saturating_add s.metrics.completed_envelopes 1;
    };
  }

  -- The commit of an admitted message.
  abbrev pub commit_peer : RxSession a D B → ℕ → PeerRuntime a D B → RxSession a D B
  commit_peer s source p = record s {
    peers = insert source p s.peers;
    metrics = record (s.metrics) {
      accepted_snapshots = saturating_add s.metrics.accepted_snapshots 1;
    };
  }

  unfoldable pub settle_admission :
      RxSession a D B
      → Result (ProtocolError a.AirError S) (PeerRuntime a D B × ReceivedAdvisorySnapshot a D B)
      → Outcome
  settle_admission s (err e) = (s, err e)
  settle_admission s (ok (p, received)) =
      (commit_peer s received.metadata.source_id p, ok (some received))

  unfoldable pub admit_complete :
      RxSession a D B → (expected now_ms fragment_count : ℕ) → a.Message → Outcome
  unfolding settle_admission
  admit_complete s expected now_ms fragment_count m = settle_admission s (
      admit_message a decode s.keys s.config (get expected s.peers)
        (ltb s.config.max_peers (active_source_count a s)) expected now_ms fragment_count m)

  unfoldable pub settle_fragment :
      RxSession a D B
      → (expected now_ms fragment_count : ℕ)
      → PeerIngress a × Result (ProtocolError a.AirError S) (Option a.Message)
      → Outcome
  settle_fragment s expected now_ms fragment_count (i, err e) =
      (record s { ingress = insert expected i s.ingress }, err e)
  settle_fragment s expected now_ms fragment_count (i, ok none) =
      (record s { ingress = insert expected i s.ingress }, ok none)
  settle_fragment s expected now_ms fragment_count (i, ok (some m)) =
      admit_complete (count_completed (record s { ingress = insert expected i s.ingress })) expected
        now_ms fragment_count m

  unfoldable pub ingest_opened :
      RxSession a D B → ℕ → ℕ → a.Frame → Option (PeerIngress a) → Outcome
  unfolding settle_fragment
  ingest_opened s expected now_ms frame none = (s, err (ingress_unavailable expected))
  ingest_opened s expected now_ms frame (some i) =
      settle_fragment s expected now_ms (a.frame_fragment_count frame)
        (ingest_fragment a s.config expected now_ms frame i)

  unfoldable pub ingest_ready :
      RxSession a D B
      → ℕ
      → ℕ
      → a.Frame
      → Result (ProtocolError a.AirError S) (RxSession a D B)
      → Outcome
  ingest_ready s expected now_ms frame (err e) = (s, err e)
  ingest_ready s expected now_ms frame (ok t) =
      ingest_opened t expected now_ms frame (get expected t.ingress)

  unfoldable pub ingest_checked :
      RxSession a D B → ℕ → ℕ → a.Frame → Result (ProtocolError a.AirError S) (Unit {0}) → Outcome
  ingest_checked s expected now_ms frame (err e) = (s, err e)
  ingest_checked s expected now_ms frame (ok _) =
      ingest_ready s expected now_ms frame (open_ingress a s expected now_ms)

  unfoldable pub ingest_decoded_frame : RxSession a D B → ℕ → ℕ → a.Frame → Outcome
  unfolding ingest_opened ingest_ready ingest_checked
  ingest_decoded_frame s expected now_ms frame =
      ingest_checked s expected now_ms frame (check_frame a s expected frame)

  abbrev pub count_frame : RxSession a D B → RxSession a D B
  count_frame s = record s {
    metrics = record (s.metrics) { frames_seen = saturating_add s.metrics.frames_seen 1 };
  }

  abbrev pub record_outcome : Outcome → Outcome
  record_outcome (s, r) = (record s { metrics = record_result a.crc_mismatch? r s.metrics }, r)

  unfoldable pub ingest_frame : RxSession a D B → ℕ → ℕ → a.Frame → Outcome
  ingest_frame s expected now_ms frame =
      record_outcome (ingest_decoded_frame (count_frame s) expected now_ms frame)

  -- A frame that does not decode is an error like the others.
  unfoldable pub ingest_decoding :
      RxSession a D B → ℕ → ℕ → Result (ProtocolError a.AirError S) a.Frame → Outcome
  ingest_decoding s expected now_ms (err e) = (s, err e)
  ingest_decoding s expected now_ms (ok frame) = ingest_decoded_frame s expected now_ms frame

  unfoldable pub ingest_frame_bytes : RxSession a D B → ℕ → ℕ → List ℕ → Outcome
  unfolding ingest_decoding
  ingest_frame_bytes s expected now_ms bytes =
      record_outcome
        (ingest_decoding (count_frame s) expected now_ms (lift_air (a.decode_frame bytes)))
