-- ===== src/Latentmesh/Protocol/Session.antt =====
-- The receive session of src/latentmesh/protocol.rs: ingest, checkpoints, expiry and metrics. An
-- operation returns the session as it leaves it, also where it fails.
use ruv_drone.Base.{
  ℕ, ◌+◌, ◌&&◌, ◌||◌, Bool, true, not, ltb, leb, ◌==◌, if◌then◌else◌, List, [], ◌∷◌, Option, none,
  some, is_some, Result, ok, err, ◌>>=◌, ◌>>◌, reject_if, length, u32_max, saturating_add,
  saturating_sub, nat_key,
}
use ruv_drone.Base.TreeMap
use ruv_drone.Base.TreeMap.{TreeMap, contains_key, get, insert, map_values}
use ruv_drone.Latentmesh.Air.{Air}
use ruv_drone.Latentmesh.Protocol.Types.{
  AdvisoryPeerSnapshot, PeerRuntime, ProtocolError, ProtocolMetrics, ReplayCheckpoint, RxConfig,
  RxSession, air, authentication_failed, checkpoint_rollback, lift_air, metadata_mismatch,
  no_metrics, peer_capacity, replay, sequence_exhausted, signature_required, stale_epoch,
  stale_logical, stream_id_for_source, too_old, untrusted_peer, validate,
}
use ruv_drone.Latentmesh.Protocol.Ingress.{new_ingress}

-- The ingress keys that are not peers.
unfoldable pub count_fresh {ℓ κ} : {V : Type ℓ} {U : Type κ} → TreeMap ℕ V → TreeMap ℕ U → ℕ
count_fresh peers [] = 0
count_fresh peers ((k, i) ∷ m) =
    let rest = count_fresh peers m in if contains_key k peers then rest else rest + 1

-- Which counter a failure is recorded under.
pub data Rejection : Type 0 where
  crc authentication replaying semantic : Rejection

unfoldable pub rejection : {A S : Type 0} → (A → Bool) → ProtocolError A S → Rejection
rejection is_crc (air e) = if is_crc e then crc else semantic
rejection is_crc authentication_failed = authentication
rejection is_crc signature_required = authentication
rejection is_crc (untrusted_peer _) = authentication
rejection is_crc (replay _ _) = replaying
rejection is_crc (too_old _ _) = replaying
rejection is_crc (stale_epoch _ _ _) = replaying
rejection is_crc (stale_logical _ _ _) = replaying
rejection is_crc _ = semantic

unfoldable pub count_rejection : Rejection → ProtocolMetrics → ProtocolMetrics
count_rejection crc m = record m { crc_rejections = saturating_add m.crc_rejections 1 }
count_rejection authentication m = record m {
  authentication_rejections = saturating_add m.authentication_rejections 1;
}
count_rejection replaying m = record m { replay_rejections = saturating_add m.replay_rejections 1 }
count_rejection semantic m = record m {
  semantic_rejections = saturating_add m.semantic_rejections 1;
}

unfoldable pub record_result {ℓ} :
    {A S : Type 0} {T : Type ℓ}
    → (A → Bool)
    → Result (ProtocolError A S) T
    → ProtocolMetrics
    → ProtocolMetrics
unfolding rejection count_rejection
record_result is_crc (ok t) m = m
record_result is_crc (err e) m = count_rejection (rejection is_crc e) m

module _ (a : Air) {D B : Type 0} where
  unfoldable pub active_source_count : RxSession a D B → ℕ
  active_source_count s = length s.peers + count_fresh s.peers s.ingress

  -- Whether a snapshot has outlived its time to live.
  unfoldable pub is_expired : ℕ → ℕ → PeerRuntime a D B → Bool
  is_expired now_ms ttl p = is_some p.snapshot && ltb ttl (saturating_sub now_ms p.accepted_at_ms)

  unfoldable pub expire_peer : ℕ → ℕ → PeerRuntime a D B → PeerRuntime a D B
  unfolding is_expired
  expire_peer now_ms ttl p =
      if is_expired now_ms ttl p
      then record p { snapshot = none; critical = none; requires_keyframe = true }
      else p

  unfoldable pub count_expired : ℕ → ℕ → TreeMap ℕ (PeerRuntime a D B) → ℕ
  unfolding is_expired
  count_expired now_ms ttl [] = 0
  count_expired now_ms ttl ((k, p) ∷ m) =
      let rest = count_expired now_ms ttl m in if is_expired now_ms ttl p then rest + 1 else rest

  unfoldable pub expire_stale : RxSession a D B → ℕ → RxSession a D B × ℕ
  unfolding expire_peer count_expired
  expire_stale s now_ms = (
    record s { peers = map_values (expire_peer now_ms s.config.advisory_ttl_ms) s.peers },
    count_expired now_ms s.config.advisory_ttl_ms s.peers,
  )

  abbrev pub checkpoint_of : ℕ → PeerRuntime a D B → ReplayCheckpoint
  checkpoint_of source p = record {
    source_id = source;
    epoch = p.epoch;
    last_logical_sequence = p.last_logical_sequence;
    last_timestamp_ms = p.last_timestamp_ms;
  }

  unfoldable pub checkpoints_of : TreeMap ℕ (PeerRuntime a D B) → List ReplayCheckpoint
  checkpoints_of [] = []
  checkpoints_of ((k, p) ∷ m) = checkpoint_of k p ∷ checkpoints_of m

  unfoldable pub replay_checkpoints : RxSession a D B → List ReplayCheckpoint
  unfolding checkpoints_of
  replay_checkpoints s = checkpoints_of s.peers

  abbrev pub snapshot_of : Option (PeerRuntime a D B) → Option (AdvisoryPeerSnapshot D B)
  snapshot_of none = none
  snapshot_of (some p) = p.snapshot

  unfoldable pub peer_snapshot : RxSession a D B → ℕ → Option (AdvisoryPeerSnapshot D B)
  peer_snapshot s source = snapshot_of (get source s.peers)

  -- What a restored peer is: its high-water marks, and no state.
  abbrev pub restored : ReplayCheckpoint → PeerRuntime a D B
  restored c = record {
    epoch = c.epoch;
    replay = a.new_window;
    last_logical_sequence = c.last_logical_sequence;
    last_timestamp_ms = c.last_timestamp_ms;
    accepted_at_ms = 0;
    critical = none;
    snapshot = none;
    requires_keyframe = true;
  }

  abbrev pub rolls_back : ReplayCheckpoint → PeerRuntime a D B → Bool
  rolls_back c p =
      ltb c.epoch p.epoch
      || c.epoch == p.epoch && leb c.last_logical_sequence p.last_logical_sequence

  module _ {S : Type 0} where
    unfoldable pub new :
        (ℕ → Option a.VerifyingKey)
        → RxConfig a
        → Result (ProtocolError a.AirError S) (RxSession a D B)
    new keys config = do
      validate a config
      ok (record {
        keys = keys;
        config = config;
        ingress = TreeMap.empty;
        peers = TreeMap.empty;
        metrics = no_metrics;
      })

    unfoldable pub check_checkpoint :
        RxSession a D B → ReplayCheckpoint → Result (ProtocolError a.AirError S) (Unit {0})
    check_checkpoint s c = do
      reject_if (not (is_some (s.keys c.source_id))) (untrusted_peer c.source_id)
      reject_if (ltb u32_max c.last_logical_sequence) sequence_exhausted
      elim (get c.source_id s.peers) [
        | some p ↦ reject_if (rolls_back c p) (checkpoint_rollback c.source_id)
        | none ↦
            reject_if (active_source_count s == s.config.max_peers)
              (peer_capacity s.config.max_peers)
      ]

    unfoldable pub restore_replay_checkpoint :
        RxSession a D B → ReplayCheckpoint → Result (ProtocolError a.AirError S) (RxSession a D B)
    restore_replay_checkpoint s c = do
      check_checkpoint s c
      ok (record s { peers = insert c.source_id (restored c) s.peers })

    -- The tests of `ingest_decoded_frame` on the frame itself.
    unfoldable pub check_frame :
        RxSession a D B → ℕ → a.Frame → Result (ProtocolError a.AirError S) (Unit {0})
    check_frame s expected frame = do
      reject_if (not (a.profile_eq (a.frame_profile frame) s.config.profile))
          (metadata_mismatch "profile")
      reject_if
          (not (
            a.bits (a.frame_flags frame)
            == a.bits (a.union s.config.transport_flags a.signed_envelope)))
          (metadata_mismatch "flags")
      reject_if (not (a.frame_stream_id frame == stream_id_for_source expected))
          (metadata_mismatch "source_hint_stream_id")
      reject_if (not (is_some (s.keys expected))) (untrusted_peer expected)

    -- A source's first frame gives it an ingress, if the session has room for it.
    unfoldable pub open_ingress :
        RxSession a D B → ℕ → ℕ → Result (ProtocolError a.AirError S) (RxSession a D B)
    open_ingress s expected now_ms = if contains_key expected s.ingress then ok s else do
      reject_if (not (contains_key expected s.peers) && active_source_count s == s.config.max_peers)
          (peer_capacity s.config.max_peers)
      i ← lift_air (new_ingress a s.config.reassembly now_ms)
      ok (record s { ingress = insert expected i s.ingress })
