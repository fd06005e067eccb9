-- ===== src/Latentmesh/Protocol/Tests.antt =====
-- Runs of the sessions of src/latentmesh/protocol.rs on a small radio.
use ruv_drone.Base.{
  ◌≤◌, ◌≡◌, ◌↔◌, refl, ℕ, ◌⊎◌, inl, inr, List, [], ◌∷◌, some, Result, ok, All, AllPairs, nat_key,
  none, count, arith, ◌+◌, ◌*◌, pair_key,
}
use ruv_drone.Base.TreeMap
use ruv_drone.Base.TreeMap.{get, insert, remove}
use ruv_drone.Types.{DroneState}
use ruv_drone.Failsafe.{FailSafeState, nominal}
use ruv_drone.Latentmesh.Protocol.Types.{
  AdvisoryPeerSnapshot, PeerIngress, RxConfig, validate, RxSession, no_metrics,
}
use ruv_drone.Latentmesh.Protocol.Radio.{Packet, config, packet, print, radio, sender}
use ruv_drone.Latentmesh.Protocol.Transmit.{TxSession}
use ruv_drone.Latentmesh.Protocol.Sequence.{
  AreConsecutive, Sending, rotate, send, send_all, send_all-AreConsecutive,
}
use ruv_drone.Latentmesh.Protocol.Session.{
  active_source_count, expire_stale, new, peer_snapshot, replay_checkpoints,
}
use ruv_drone.Latentmesh.Protocol.Capacity.{perform_each}
use ruv_drone.Latentmesh.Protocol.Intake.{taken}
use ruv_drone.Latentmesh.Protocol.Throughput.{perform_each-taken}
use ruv_drone.Latentmesh.Protocol.Sources.{active_source_count-le}
use ruv_drone.Latentmesh.Protocol.Expiry.{HasFresh, expire_stale-HasFresh}
use ruv_drone.Latentmesh.Protocol.Rate.{ingest_each, ingest_each-count, is_let_through}
use ruv_drone.Latentmesh.Protocol.Receive.{ingest_frame_bytes}
use ruv_drone.Latentmesh.Protocol.Effects.{Keeps}
use ruv_drone.Latentmesh.Protocol.Reception.{Receives, ingest_frame_bytes-Receives}
use ruv_drone.Latentmesh.Protocol.History.{
  Beyond, Operation, Supersedes, expire, frame, frame_bytes, perform_all, perform_all-Supersedes,
  restore,
}

abbrev drone : ℕ → ℕ → DroneState ℕ ℕ
drone x t = record {
  id = x;
  position = record { x = 0; y = 0; z = 0 };
  velocity = record { vx = 0; vy = 0; vz = 0 };
  heading_rad = 0;
  altitude_agl_m = 0;
  battery_pct = 90;
  link_quality = 1;
  timestamp_ms = t;
}

-- The state of drone 3 at a time.
abbrev decode : ℕ → Result (Unit {0}) (AdvisoryPeerSnapshot ℕ ℕ)
decode t = ok (record { drone = drone 3 t; failsafe = nominal })

abbrev session : RxSession radio ℕ ℕ
session = record {
  keys = λ x. some x;
  config = config;
  ingress = TreeMap.empty;
  peers = TreeMap.empty;
  metrics = no_metrics;
}

ingest_frame_bytes-Receives_example :
    let o = ingest_frame_bytes radio decode session 3 1_000 (print (packet 0 0 1_000)) in
    Keeps radio decode session o ⊎ Receives radio decode session 3 1_000 o
ingest_frame_bytes-Receives_example =
    ingest_frame_bytes-Receives radio decode session 3 1_000 (print (packet 0 0 1_000))

-- A keyframe, its repetition, a delta, and a checkpoint that is refused.
abbrev operations : List (Operation radio)
operations =
    frame 3 1_000 (packet 0 0 1_000)
    ∷ frame 3 1_010 (packet 0 0 1_000)
    ∷ frame_bytes 3 1_100 (print (packet 1 1_000 1_050))
    ∷ expire 1_200
    ∷ restore
        (record { source_id = 3; epoch = 1; last_logical_sequence = 0; last_timestamp_ms = 900 })
    ∷ []

perform_all-Supersedes_example :
    All (Beyond radio session) (perform_all radio decode session operations)
    × AllPairs (Supersedes radio decode) (perform_all radio decode session operations)
perform_all-Supersedes_example = perform_all-Supersedes radio decode session operations

abbrev encode : DroneState ℕ ℕ → FailSafeState → Result (Unit {0}) ℕ
encode drone failsafe = ok drone.timestamp_ms

abbrev transmitter : TxSession radio Unit
transmitter = record {
  source_id = 3;
  epoch = 1;
  next_logical_sequence = 0;
  last_state = 0;
  signer = λ bytes. ok 3;
  config = record {
    profile = 0;
    frame_mtu = 64;
    priority = 0;
    keyframe_interval = 2;
    transport_flags = 0;
  };
}

-- Two states, one of another drone that is refused, a new epoch, and a state in it.
abbrev sendings : List (Sending ℕ ℕ)
sendings =
    send (drone 3 1_000) nominal
    ∷ send (drone 3 1_050) nominal
    ∷ send (drone 4 1_060) nominal
    ∷ rotate 2
    ∷ send (drone 3 1_100) nominal
    ∷ []

send_all-AreConsecutive_example :
    AreConsecutive radio 3 2 1 0 (send_all radio sender encode transmitter sendings)
send_all-AreConsecutive_example = send_all-AreConsecutive radio sender encode transmitter sendings

made : new radio {S = Unit} session.keys config ≡ ok session
unfolding new validate
made = refl

-- A source that keeps sending within a second, after the operations above.
abbrev flood : List (Operation radio)
flood =
    frame 3 2_000 (packet 2 2 2_000)
    ∷ expire 2_100
    ∷ frame_bytes 3 2_200 (print (packet 3 3 2_200))
    ∷ frame_bytes 4 9_000 (print (packet 3 3 2_200))
    ∷ []

perform_each-taken_example :
    taken radio decode config 3 (perform_each radio decode session operations) flood ≤ 2 * 8
perform_each-taken_example =
    perform_each-taken radio decode config session.keys session operations flood 3 1_500 made (
      inr (omega arith, omega arith),
      (tt, (inr (omega arith, omega arith), (inl (omega arith), tt))),
    )

-- At two frames a window: five within a second, where one has been counted in the open window.
abbrev limited : RxConfig radio
limited = record config { max_frames_per_window = 2 }

abbrev opened : PeerIngress radio
opened = record {
  reassembler = tt;
  context_started_ms = [];
  last_received_ms = none;
  window_started_ms = 500;
  frames_in_window = 1;
}

abbrev burst : List (ℕ × Packet)
burst =
    (1_000, packet 0 0 1_000)
    ∷ (1_200, packet 1 1 1_200)
    ∷ (1_600, packet 2 2 1_600)
    ∷ (1_700, packet 3 3 1_700)
    ∷ (1_800, packet 4 4 1_800)
    ∷ []

ingest_each-count_example :
    count is_let_through (ingest_each radio Unit limited 3 opened burst) + 1 ≤ 2 * 2
ingest_each-count_example =
    ingest_each-count radio Unit limited 3 opened burst 1_000 (omega arith) (omega arith)
      (ground arith)

active_source_count-le_example :
    active_source_count radio (perform_each radio decode session operations) ≤ 2
active_source_count-le_example =
    active_source_count-le radio decode session.keys config session operations made

-- A session that has heard drone 3 once.
abbrev heard : RxSession radio ℕ ℕ
heard = perform_each radio decode session (frame 3 1_000 (packet 0 0 1_000) ∷ [])

abbrev snapshot : AdvisoryPeerSnapshot ℕ ℕ
snapshot = record { drone = drone 3 1_000; failsafe = nominal }

expire_stale-HasFresh_example :
    let t = (expire_stale radio heard 2_001).0 in
    ((peer_snapshot radio t 3 ≡ some snapshot) ↔ HasFresh radio heard 2_001 3 snapshot)
    × (replay_checkpoints radio t ≡ replay_checkpoints radio heard)
expire_stale-HasFresh_example = expire_stale-HasFresh radio heard 2_001 3 snapshot
