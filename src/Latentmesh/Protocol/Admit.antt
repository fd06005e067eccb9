-- ===== src/Latentmesh/Protocol/Admit.antt =====
-- `admit_complete` of src/latentmesh/protocol.rs: from a reassembled message to a peer's new state.
-- `decode` is `from_critical_state` of src/latentmesh/state.rs.
use ruv_drone.Base.{
  ℕ, ◌&&◌, Bool, false, not, ltb, leb, ◌==◌, if◌then◌else◌, Option, none, some, is_some, Result, ok,
  err, ◌>>=◌, ◌>>◌, reject_if, ok_or, length, u16, u32_max, saturating_add, saturating_sub,
}
use ruv_drone.Latentmesh.Air.{Air, ReplayDecision, accept, duplicate}
use ruv_drone.Latentmesh.Protocol.Types.{
  AdvisoryPeerSnapshot, PeerRuntime, ProtocolError, ReceivedAdvisorySnapshot, RxConfig,
  authentication_failed, invalid_epoch_start, keyframe_required, learned_residual_forbidden,
  lift_air, metadata_mismatch, peer_capacity, replay, sequence_exhausted, signature_required,
  snapshot_from_future, snapshot_too_old, source_hint_mismatch, source_mismatch, stale_epoch,
  stale_logical, stale_timestamp, state, stream_id_for_source, too_old, untrusted_peer,
}

module _ (a : Air) where
  unfoldable pub is_keyframe : a.Delta → Bool
  is_keyframe d = a.hash_eq (a.base_hash d) (a.critical_hash a.empty_critical)

  module _ {S : Type 0} where
    -- The checks that bind the frame's fields to the envelope's.
    unfoldable pub bind_metadata :
        ℕ → a.Message → a.Envelope → Result (ProtocolError a.AirError S) (Unit {0})
    bind_metadata expected m e = do
      reject_if (not (a.source_id e == expected)) (source_hint_mismatch expected (a.source_id e))
      reject_if (not (a.class_eq (a.class e) (a.message_class m))) (metadata_mismatch "class")
      reject_if (not (a.priority e == a.message_priority m)) (metadata_mismatch "priority")
      reject_if (not (a.state_hash_tag (a.state_hash e) == a.message_state_tag m))
          (metadata_mismatch "state_tag")
      reject_if (not (a.message_stream_id m == stream_id_for_source (a.source_id e)))
          (metadata_mismatch "stream_id")
      reject_if (not (a.message_sequence m == u16 (a.logical_sequence e)))
          (metadata_mismatch "sequence")
      reject_if (ltb u32_max (a.logical_sequence e)) sequence_exhausted
      reject_if (not (a.message_id e == a.logical_sequence e)) (metadata_mismatch "message_id")

    -- The signature over the envelope's own bytes, under the key trusted for its source.
    unfoldable pub authenticate :
        (ℕ → Option a.VerifyingKey) → a.Envelope → Result (ProtocolError a.AirError S) (Unit {0})
    authenticate keys e = do
      signature ← ok_or (a.signature e) signature_required
      key ← ok_or (keys (a.source_id e)) (untrusted_peer (a.source_id e))
      bytes ← lift_air (a.authentication_bytes e)
      reject_if (not (a.verify_strict key bytes signature)) authentication_failed

    unfoldable pub open_envelope :
        (ℕ → Option a.VerifyingKey) → ℕ → a.Message → Result (ProtocolError a.AirError S) a.Envelope
    open_envelope keys expected m = do
      e ← lift_air (a.decode_envelope (a.message_bytes m))
      bind_metadata expected m e
      authenticate keys e
      ok e

    unfoldable pub open_delta : a.Envelope → Result (ProtocolError a.AirError S) a.Delta
    open_delta e = do
      d ← lift_air (a.unwrap_delta e)
      reject_if (a.has_residuals d) learned_residual_forbidden
      ok d

    -- `ReplayWindow::classify` as an early return.
    unfoldable pub check_replay :
        ReplayDecision → ℕ → ℕ → Result (ProtocolError a.AirError S) (Unit {0})
    check_replay accept source epoch = ok tt
    check_replay duplicate source epoch = err (replay source epoch)
    check_replay _ source epoch = err (too_old source epoch)

    -- A new epoch starts from nothing: at logical sequence zero, with a keyframe.
    unfoldable pub start_epoch :
        a.Envelope → Bool → Result (ProtocolError a.AirError S) (a.Critical × a.ReplayWindow)
    start_epoch e keyframe =
        if a.logical_sequence e == 0 && keyframe
        then ok (a.empty_critical, a.new_window)
        else err (invalid_epoch_start (a.source_id e) (a.epoch e))

    module _ {D B : Type 0} where
      -- Within an epoch a delta needs the state that it is based on.
      unfoldable pub continue_epoch :
          PeerRuntime a D B
          → a.Envelope
          → Bool
          → Result (ProtocolError a.AirError S) (a.Critical × a.ReplayWindow)
      continue_epoch peer e keyframe = do
        reject_if (peer.requires_keyframe && not keyframe)
            (keyframe_required (a.source_id e) (a.epoch e))
        base ←
            if keyframe
            then ok a.empty_critical
            else ok_or peer.critical (keyframe_required (a.source_id e) (a.epoch e))
        ok (base, peer.replay)

      unfoldable pub select_base :
          Option (PeerRuntime a D B)
          → a.Envelope
          → Bool
          → Result (ProtocolError a.AirError S) (a.Critical × a.ReplayWindow)
      unfolding start_epoch continue_epoch
      select_base none e keyframe = start_epoch e keyframe
      select_base (some peer) e keyframe =
          if ltb (a.epoch e) peer.epoch
          then err (stale_epoch (a.source_id e) (a.epoch e) peer.epoch)
          else if a.epoch e == peer.epoch
          then continue_epoch peer e keyframe
          else start_epoch e keyframe

      -- Within an epoch the logical sequence grows.
      unfoldable pub check_logical :
          Option (PeerRuntime a D B) → a.Envelope → Result (ProtocolError a.AirError S) (Unit {0})
      check_logical none e = ok tt
      check_logical (some peer) e =
          reject_if
            (a.epoch e == peer.epoch && leb (a.logical_sequence e) peer.last_logical_sequence)
            (stale_logical (a.source_id e) (a.logical_sequence e) peer.last_logical_sequence)

      -- Within an epoch the timestamp does not fall.
      unfoldable pub check_timestamp :
          Option (PeerRuntime a D B)
          → a.Envelope
          → ℕ
          → Result (ProtocolError a.AirError S) (Unit {0})
      check_timestamp none e t = ok tt
      check_timestamp (some peer) e t =
          reject_if (a.epoch e == peer.epoch && ltb t peer.last_timestamp_ms)
            (stale_timestamp (a.source_id e) t peer.last_timestamp_ms)

      -- The snapshot is the source's own, and its time lies in the receive window.
      unfoldable pub check_snapshot :
          RxConfig a
          → ℕ
          → a.Envelope
          → AdvisoryPeerSnapshot D B
          → Result (ProtocolError a.AirError S) (Unit {0})
      check_snapshot c now_ms e s = do
        reject_if (not (s.drone.id == a.source_id e)) (source_mismatch (a.source_id e) s.drone.id)
        reject_if (ltb (saturating_add now_ms c.max_future_skew_ms) s.drone.timestamp_ms)
            (snapshot_from_future (a.source_id e))
        reject_if (ltb c.max_snapshot_age_ms (saturating_sub now_ms s.drone.timestamp_ms))
            (snapshot_too_old (a.source_id e))

    -- `result?` where the error is the state codec's.
    abbrev pub lift_state {ℓ} : {T : Type ℓ} → Result S T → Result (ProtocolError a.AirError S) T
    lift_state (ok t) = ok t
    lift_state (err x) = err (state x)

  module _ {D B : Type 0} where
    -- The peer's new state and what is passed on to the advisory consumer.
    unfoldable pub admitted :
        (now_ms fragment_count : ℕ)
        → a.Message
        → a.Envelope × a.Delta × a.Critical × a.ReplayWindow
        → a.Critical × AdvisoryPeerSnapshot D B × a.ReplayWindow
        → PeerRuntime a D B × ReceivedAdvisorySnapshot a D B
    admitted now_ms fragment_count m (e, d, _, _) (result, snapshot, window) = (
      record {
        epoch = a.epoch e;
        replay = window;
        last_logical_sequence = a.logical_sequence e;
        last_timestamp_ms = snapshot.drone.timestamp_ms;
        accepted_at_ms = now_ms;
        critical = some result;
        snapshot = some snapshot;
        requires_keyframe = false;
      },
      record {
        snapshot = snapshot;
        metadata = record {
          source_id = a.source_id e;
          epoch = a.epoch e;
          message_id = a.message_id e;
          logical_sequence = a.logical_sequence e;
          wire_sequence = a.message_sequence m;
          stream_id = a.message_stream_id m;
          priority = a.priority e;
          state_hash = a.result_hash d;
          encoded_message_bytes = length (a.message_bytes m);
          fragment_count = fragment_count;
          keyframe = is_keyframe d;
          learned_residuals = 0;
        };
      },
    )

  module _ {S D B : Type 0} where
    -- The checks that precede the state: the envelope, its delta and the state that it is based on.
    unfoldable pub open_message :
        (ℕ → Option a.VerifyingKey)
        → Option (PeerRuntime a D B)
        → (expected : ℕ) → a.Message
        → Result (ProtocolError a.AirError S) (a.Envelope × a.Delta × a.Critical × a.ReplayWindow)
    open_message keys existing expected m = do
      e ← open_envelope keys expected m
      d ← open_delta e
      base ← select_base existing e (is_keyframe d)
      check_replay (a.classify base.1 (a.message_sequence m)) (a.source_id e) (a.epoch e)
      check_logical existing e
      ok (e, d, base.0, base.1)

  module _ {S D B : Type 0} (decode : a.Critical → Result S (AdvisoryPeerSnapshot D B)) where
    -- The new state, its snapshot, and the replay window that the message is committed to.
    unfoldable pub apply_message :
        RxConfig a
        → Option (PeerRuntime a D B)
        → (now_ms : ℕ) → a.Message
        → a.Envelope × a.Delta × a.Critical × a.ReplayWindow
        → Result
            (ProtocolError a.AirError S)
            (a.Critical × AdvisoryPeerSnapshot D B × a.ReplayWindow)
    apply_message c existing now_ms m (e, d, base, replay_window) = do
      result ← lift_air (a.apply d base)
      snapshot ← lift_state (decode result)
      check_snapshot c now_ms e snapshot
      check_timestamp existing e snapshot.drone.timestamp_ms
      window ← lift_air (a.commit replay_window (a.message_sequence m))
      ok (result, snapshot, window)

    -- Everything up to the insertion. `over` is the final test of the session's capacity.
    unfoldable pub admit_message :
        (ℕ → Option a.VerifyingKey)
        → RxConfig a
        → Option (PeerRuntime a D B)
        → (over : Bool) → (expected now_ms fragment_count : ℕ) → a.Message
        → Result (ProtocolError a.AirError S) (PeerRuntime a D B × ReceivedAdvisorySnapshot a D B)
    admit_message keys c existing over expected now_ms fragment_count m = do
      o ← open_message keys existing expected m
      n ← apply_message c existing now_ms m o
      reject_if (not (is_some existing) && over) (peer_capacity c.max_peers)
      ok (admitted now_ms fragment_count m o n)
