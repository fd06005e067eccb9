-- ===== src/Latentmesh/Protocol/Types.antt =====
-- The data of the receive session of src/latentmesh/protocol.rs. `a` stands for the radio crates,
-- `D` for `f64`, `B` for `f32`, `S` for the errors of the state codec.
use Prim.Native.String.{String}
use ruv_drone.Base.{
  ℕ, ◌/◌, ◌||◌, Bool, ltb, ◌==◌, Option, Result, ok, err, ◌>>=◌, ◌>>◌, reject_if, u16,
}
use Prim.Native.Nat.{bit_xor}
use ruv_drone.Base.TreeMap.{TreeMap}
use ruv_drone.Types.{DroneState}
use ruv_drone.Failsafe.{FailSafeState}
use ruv_drone.Latentmesh.Air.{Air, ReassemblerConfig}

pub data ProtocolError (A S : Type 0) : Type 0 where
  air : A → ProtocolError A S
  state : S → ProtocolError A S
  untrusted_peer : ℕ → ProtocolError A S
  authentication_failed signature_required : ProtocolError A S
  metadata_mismatch : String → ProtocolError A S
  source_mismatch : (source_id node_id : ℕ) → ProtocolError A S
  replay too_old : (source_id epoch : ℕ) → ProtocolError A S
  stale_epoch : (source_id received current : ℕ) → ProtocolError A S
  stale_logical : (source_id received last : ℕ) → ProtocolError A S
  invalid_epoch_start : (source_id epoch : ℕ) → ProtocolError A S
  stale_timestamp : (source_id received last : ℕ) → ProtocolError A S
  learned_residual_forbidden : ProtocolError A S
  peer_capacity : ℕ → ProtocolError A S
  sequence_exhausted signing_failed : ProtocolError A S
  source_hint_mismatch : (expected actual : ℕ) → ProtocolError A S
  rate_limited receive_clock_regression : ℕ → ProtocolError A S
  snapshot_too_old snapshot_from_future : ℕ → ProtocolError A S
  keyframe_required : (source_id epoch : ℕ) → ProtocolError A S
  checkpoint_rollback : ℕ → ProtocolError A S
  invalid_epoch_rotation : (current_epoch new_epoch : ℕ) → ProtocolError A S
  ingress_unavailable : ℕ → ProtocolError A S

-- `result?` where the error is the radio crate's.
abbrev pub lift_air {ℓ} : {A S : Type 0} {T : Type ℓ} → Result A T → Result (ProtocolError A S) T
lift_air (ok t) = ok t
lift_air (err e) = err (air e)

-- `(source_id as u16) ^ ((source_id >> 16) as u16)`.
unfoldable pub stream_id_for_source : ℕ → ℕ
stream_id_for_source source_id = bit_xor (u16 source_id) (u16 (source_id / 65536))

pub record AdvisoryPeerSnapshot (D B : Type 0) : Type 0 where
  pub drone : DroneState D B
  pub failsafe : FailSafeState

pub record ProtocolMetrics : Type 0 where
  pub frames_seen : ℕ
  pub completed_envelopes : ℕ
  pub accepted_snapshots : ℕ
  pub crc_rejections : ℕ
  pub authentication_rejections : ℕ
  pub replay_rejections : ℕ
  pub semantic_rejections : ℕ

abbrev pub no_metrics : ProtocolMetrics
no_metrics = record {
  frames_seen = 0;
  completed_envelopes = 0;
  accepted_snapshots = 0;
  crc_rejections = 0;
  authentication_rejections = 0;
  replay_rejections = 0;
  semantic_rejections = 0;
}

pub record ReplayCheckpoint : Type 0 where
  pub source_id : ℕ
  pub epoch : ℕ
  pub last_logical_sequence : ℕ
  pub last_timestamp_ms : ℕ

pub record RxConfig (a : Air) : Type 0 where
  pub profile : a.Profile
  pub transport_flags : a.Flags
  pub reassembly : ReassemblerConfig
  pub max_peers : ℕ
  pub max_frames_per_window : ℕ
  pub frame_window_ms : ℕ
  pub reassembly_timeout_ms : ℕ
  pub max_snapshot_age_ms : ℕ
  pub max_future_skew_ms : ℕ
  pub advisory_ttl_ms : ℕ

pub record ReceiveMetadata (a : Air) : Type 0 where
  pub source_id : ℕ
  pub epoch : ℕ
  pub message_id : ℕ
  pub logical_sequence : ℕ
  pub wire_sequence : ℕ
  pub stream_id : ℕ
  pub priority : ℕ
  pub state_hash : a.Hash
  pub encoded_message_bytes : ℕ
  pub fragment_count : ℕ
  pub keyframe : Bool
  pub learned_residuals : ℕ

pub record ReceivedAdvisorySnapshot (a : Air) (D B : Type 0) : Type 0 where
  pub snapshot : AdvisoryPeerSnapshot D B
  pub metadata : ReceiveMetadata a

pub record PeerRuntime (a : Air) (D B : Type 0) : Type 0 where
  pub epoch : ℕ
  pub replay : a.ReplayWindow
  pub last_logical_sequence : ℕ
  pub last_timestamp_ms : ℕ
  pub accepted_at_ms : ℕ
  pub critical : Option a.Critical
  pub snapshot : Option (AdvisoryPeerSnapshot D B)
  pub requires_keyframe : Bool

pub record PeerIngress (a : Air) : Type 0 where
  pub reassembler : a.Reassembler
  pub context_started_ms : TreeMap (ℕ × ℕ) ℕ
  pub last_received_ms : Option ℕ
  pub window_started_ms : ℕ
  pub frames_in_window : ℕ

pub record RxSession (a : Air) (D B : Type 0) : Type 0 where
  pub keys : ℕ → Option a.VerifyingKey
  pub config : RxConfig a
  pub ingress : TreeMap ℕ (PeerIngress a)
  pub peers : TreeMap ℕ (PeerRuntime a D B)
  pub metrics : ProtocolMetrics

module _ (a : Air) {S : Type 0} where
  -- `RxConfig::validate`.
  unfoldable pub validate : RxConfig a → Result (ProtocolError a.AirError S) (Unit {0})
  validate c = do
    reject_if
        (c.max_peers == 0
          || ltb 256 c.max_peers
          || c.max_frames_per_window == 0
          || ltb 65_536 c.max_frames_per_window
          || c.frame_window_ms == 0
          || c.reassembly_timeout_ms == 0
          || c.max_snapshot_age_ms == 0
          || c.advisory_ttl_ms == 0)
        (air a.invalid_length)
    _ ← lift_air (a.from_bits (a.bits c.transport_flags))
    reject_if (a.contains c.transport_flags a.signed_envelope) (metadata_mismatch "transport_flags")
    _ ← lift_air (a.new_reassembler c.reassembly)
    ok tt
