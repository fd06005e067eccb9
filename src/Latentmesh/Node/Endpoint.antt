-- ===== src/Latentmesh/Node/Endpoint.antt =====
-- The endpoint of src/latentmesh/node.rs. `x` and `z` stand for the radio crate, `encode` and
-- `decode` for the conversions of src/latentmesh/state.rs, `D` for `f64` and `B` for `f32`.
use ruv_drone.Base.{
  ℕ, Bool, true, false, if◌then◌else◌, List, [], ◌∷◌, Option, none, some, Result, ok, err, min,
  saturating_add, saturating_mul,
}
use ruv_drone.Base.Float.{Float}
use ruv_drone.Types.{DroneState}
use ruv_drone.Failsafe.{FailSafeState}
use ruv_drone.Latentmesh.Air.{Air}
use ruv_drone.Latentmesh.Policy.Gate
use ruv_drone.Latentmesh.Policy.Gate.{SecurityContext, verified_observe_only}
use ruv_drone.Latentmesh.Policy.Traffic.{
  AdaptivePolicy, DeliveryDecision, LinkSnapshot, MessageIntent, drop, send,
}
use ruv_drone.Latentmesh.Policy.Delivery.{evaluate}
use ruv_drone.Latentmesh.Protocol.Types.{
  AdvisoryPeerSnapshot, ProtocolError, ReceivedAdvisorySnapshot, ReplayCheckpoint, RxSession, air,
  authentication_failed, checkpoint_rollback, keyframe_required, learned_residual_forbidden,
  receive_clock_regression, replay, signature_required, snapshot_from_future, snapshot_too_old,
  source_hint_mismatch, stale_epoch, stale_logical, stale_timestamp, too_old, untrusted_peer,
}
use ruv_drone.Latentmesh.Protocol.Receive
use ruv_drone.Latentmesh.Protocol.Session
use ruv_drone.Latentmesh.Protocol.Transmit
use ruv_drone.Latentmesh.Protocol.Transmit.{AirTx, TransmitBatch, TxSession}
use ruv_drone.Latentmesh.Metrics.Counters.{
  DropCounter, LatentMeshMetrics, record_drop, record_policy_drop, record_reassembly_completed,
  record_reassembly_failure, record_receive, record_residual_suppressed, record_send,
}
use ruv_drone.Latentmesh.Metrics.Counters as Counters

-- `encoded_len` of an envelope and of a frame.
pub record AirSizes (a : Air) : Type 0 where
  pub envelope_len : a.Envelope → ℕ
  pub frame_len : a.Frame → ℕ

pub record VerifiedAdvisory (a : Air) (D B : Type 0) : Type 0 where
  pub received : ReceivedAdvisorySnapshot a D B
  pub security : SecurityContext

pub record LatentMeshNode (a : Air) (S D B : Type 0) : Type 0 where
  pub transmitter : TxSession a S
  pub receiver : RxSession a D B
  pub policy : AdaptivePolicy D
  pub metrics : LatentMeshMetrics

-- The counter of a protocol error.
unfoldable pub classify_error : {A S : Type 0} → ProtocolError A S → DropCounter
classify_error authentication_failed = DropCounter.authentication
classify_error signature_required = DropCounter.authentication
classify_error (untrusted_peer _) = DropCounter.authentication
classify_error (source_hint_mismatch _ _) = DropCounter.authentication
classify_error (replay _ _) = DropCounter.replay
classify_error (too_old _ _) = DropCounter.replay
classify_error (stale_epoch _ _ _) = DropCounter.replay
classify_error (stale_logical _ _ _) = DropCounter.replay
classify_error (checkpoint_rollback _) = DropCounter.replay
classify_error (stale_timestamp _ _ _) = DropCounter.stale
classify_error (snapshot_too_old _) = DropCounter.stale
classify_error (snapshot_from_future _) = DropCounter.stale
classify_error (receive_clock_regression _) = DropCounter.stale
classify_error (keyframe_required _ _) = DropCounter.stale
classify_error _ = DropCounter.policy

abbrev pub is_residual_error : {A S : Type 0} → ProtocolError A S → Bool
is_residual_error learned_residual_forbidden = true
is_residual_error _ = false

abbrev pub is_air_error : {A S : Type 0} → ProtocolError A S → Bool
is_air_error (air _) = true
is_air_error _ = false

unfoldable pub record_protocol_drop :
    {A S : Type 0} → ProtocolError A S → LatentMeshMetrics → LatentMeshMetrics
unfolding record_drop classify_error record_residual_suppressed record_reassembly_failure
record_protocol_drop e m =
    let dropped = record_drop (classify_error e) m in
    let suppressed = if is_residual_error e then record_residual_suppressed dropped else dropped in
    if is_air_error e then record_reassembly_failure suppressed else suppressed

module _ (a : Air) {S D B : Type 0} where
  -- The context of a snapshot: observe only, for as long as both configurations allow.
  unfoldable pub context_of : LatentMeshNode a S D B → ℕ → SecurityContext
  unfolding verified_observe_only
  context_of n received_at_ms = verified_observe_only received_at_ms (
      saturating_add received_at_ms
        (min n.receiver.config.advisory_ttl_ms n.policy.config.capability.max_context_age_ms))

  unfoldable pub new : TxSession a S → RxSession a D B → AdaptivePolicy D → LatentMeshNode a S D B
  new transmitter receiver policy = record {
    transmitter = transmitter;
    receiver = receiver;
    policy = policy;
    metrics = Counters.new;
  }

  unfoldable pub evaluate_delivery :
      ⦃f : Float D⦄
      → LatentMeshNode a S D B
      → ℕ
      → LinkSnapshot D
      → MessageIntent D
      → LatentMeshNode a S D B × DeliveryDecision D
  unfolding evaluate record_policy_drop
  evaluate_delivery n now_ms link intent =
      let decision = evaluate n.policy now_ms link intent in
      (
        elim decision [
          | drop reason ↦ record n { metrics = record_policy_drop reason n.metrics }
          | send plan ↦ n
        ],
        decision,
      )

  unfoldable pub approve_manifest : LatentMeshNode a S D B → ℕ → LatentMeshNode a S D B × Bool
  approve_manifest n manifest_id =
      let (gate, fresh) = Gate.approve_manifest n.policy.gate manifest_id in
      (record n { policy = record (n.policy) { gate = gate } }, fresh)

  unfoldable pub revoke_manifest : LatentMeshNode a S D B → ℕ → LatentMeshNode a S D B × Bool
  revoke_manifest n manifest_id =
      let (gate, held) = Gate.revoke_manifest n.policy.gate manifest_id in
      (record n { policy = record (n.policy) { gate = gate } }, held)

  unfoldable pub expire_stale : LatentMeshNode a S D B → ℕ → LatentMeshNode a S D B × ℕ
  expire_stale n now_ms =
      let (receiver, expired) = Session.expire_stale a n.receiver now_ms in
      (record n { receiver = receiver }, expired)

  unfoldable pub replay_checkpoints : LatentMeshNode a S D B → List ReplayCheckpoint
  replay_checkpoints n = Session.replay_checkpoints a n.receiver

  abbrev pub with_receiver :
      LatentMeshNode a S D B
      → Result (ProtocolError a.AirError S) (RxSession a D B)
      → LatentMeshNode a S D B × Result (ProtocolError a.AirError S) (Unit {0})
  with_receiver n (ok receiver) = (record n { receiver = receiver }, ok tt)
  with_receiver n (err e) = (n, err e)

  unfoldable pub restore_replay_checkpoint :
      LatentMeshNode a S D B
      → ReplayCheckpoint
      → LatentMeshNode a S D B × Result (ProtocolError a.AirError S) (Unit {0})
  restore_replay_checkpoint n c = with_receiver n (Session.restore_replay_checkpoint a n.receiver c)

module _ (a : Air) (x : AirTx a) {D B : Type 0} where
  -- What a received snapshot is counted as.
  unfoldable pub record_advisory :
      ReceivedAdvisorySnapshot a D B → LatentMeshMetrics → LatentMeshMetrics
  unfolding record_receive record_reassembly_completed
  record_advisory received m =
      let logical_bytes = received.metadata.encoded_message_bytes in
      let wire_bytes =
        saturating_add logical_bytes
          (saturating_mul received.metadata.fragment_count x.frame_min_bytes) in
      record_reassembly_completed received.metadata.fragment_count
        (record_receive logical_bytes wire_bytes m)

module _ (a : Air) (x : AirTx a) {S D B : Type 0} where
  unfoldable pub settle :
      LatentMeshNode a S D B
      → ℕ
      → RxSession a D B
        × Result (ProtocolError a.AirError S) (Option (ReceivedAdvisorySnapshot a D B))
      → LatentMeshNode a S D B
        × Result (ProtocolError a.AirError S) (Option (VerifiedAdvisory a D B))
  unfolding record_advisory context_of record_protocol_drop
  settle n received_at_ms (receiver, ok (some received)) = (
    record n { receiver = receiver; metrics = record_advisory a x received n.metrics },
    ok (some (record { received = received; security = context_of a n received_at_ms })),
  )
  settle n received_at_ms (receiver, ok none) = (record n { receiver = receiver }, ok none)
  settle n received_at_ms (receiver, err e) =
      (record n { receiver = receiver; metrics = record_protocol_drop e n.metrics }, err e)

  unfoldable pub ingest_frame_bytes :
      (a.Critical → Result S (AdvisoryPeerSnapshot D B))
      → LatentMeshNode a S D B
      → (expected_source_id received_at_ms : ℕ) → List ℕ
      → LatentMeshNode a S D B
        × Result (ProtocolError a.AirError S) (Option (VerifiedAdvisory a D B))
  unfolding settle
  ingest_frame_bytes decode n expected_source_id received_at_ms bytes =
      settle n received_at_ms
        (Receive.ingest_frame_bytes a decode n.receiver expected_source_id received_at_ms bytes)

module _ (a : Air) (x : AirTx a) (z : AirSizes a) {S D B : Type 0}
    (encode : DroneState D B → FailSafeState → Result S a.Critical) where
  abbrev pub wire_bytes : ℕ → List a.Frame → ℕ
  wire_bytes total [] = total
  wire_bytes total (frame ∷ frames) = wire_bytes (saturating_add total (z.frame_len frame)) frames

  unfoldable pub settle_send :
      LatentMeshNode a S D B
      → TxSession a S × Result (ProtocolError a.AirError S) (TransmitBatch a)
      → LatentMeshNode a S D B × Result (ProtocolError a.AirError S) (TransmitBatch a)
  unfolding record_send
  settle_send n (transmitter, err e) = (record n { transmitter = transmitter }, err e)
  settle_send n (transmitter, ok batch) = (
    record n {
      transmitter = transmitter;
      metrics = record_send (z.envelope_len batch.envelope) (wire_bytes 0 batch.frames) n.metrics;
    },
    ok batch,
  )

  unfoldable pub encode_advisory_state :
      LatentMeshNode a S D B
      → DroneState D B
      → FailSafeState
      → LatentMeshNode a S D B × Result (ProtocolError a.AirError S) (TransmitBatch a)
  unfolding settle_send
  encode_advisory_state n state failsafe =
      settle_send n (Transmit.encode_advisory_state a x encode n.transmitter state failsafe)
