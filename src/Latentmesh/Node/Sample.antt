-- ===== src/Latentmesh/Node/Sample.antt =====
-- A node on the small radio and what it hears of drone 3, for the tests of src/latentmesh/node.rs.
use ruv_drone.Base.{true, ok, some}
use ruv_drone.Base.TreeMap
use ruv_drone.Types.{DroneState}
use ruv_drone.Failsafe.{nominal}
use ruv_drone.Latentmesh.Policy.Gate.{observe_only}
use ruv_drone.Latentmesh.Policy.Traffic.{AdaptivePolicy}
use ruv_drone.Latentmesh.Protocol.Types.{no_metrics}
use ruv_drone.Latentmesh.Protocol.Radio.{config, radio}
use ruv_drone.Latentmesh.Metrics.Counters as Counters
use ruv_drone.Latentmesh.Node.Endpoint.{LatentMeshNode, VerifiedAdvisory}

abbrev pub listener : {S D B : Type 0} → AdaptivePolicy D → LatentMeshNode radio S D B
listener policy = record {
  transmitter = record {
    source_id = 9;
    epoch = 1;
    next_logical_sequence = 0;
    last_state = 0;
    signer = λ bytes. ok 9;
    config = record {
      profile = 0;
      frame_mtu = 64;
      priority = 0;
      keyframe_interval = 2;
      transport_flags = 0;
    };
  };
  receiver = record {
    keys = λ x. some x;
    config = config;
    ingress = TreeMap.empty;
    peers = TreeMap.empty;
    metrics = no_metrics;
  };
  policy = policy;
  metrics = Counters.new;
}

abbrev pub advisory : {D B : Type 0} → DroneState D B → VerifiedAdvisory radio D B
advisory drone = record {
  received = record {
    snapshot = record { drone = drone; failsafe = nominal };
    metadata = record {
      source_id = 3;
      epoch = 1;
      message_id = 0;
      logical_sequence = 0;
      wire_sequence = 0;
      stream_id = 3;
      priority = 0;
      state_hash = 1_000;
      encoded_message_bytes = 6;
      fragment_count = 1;
      keyframe = true;
      learned_residuals = 0;
    };
  };
  security = record {
    authenticated = true;
    trusted_source = true;
    issued_at_ms = 1_000;
    expires_at_ms = 2_000;
    requested_authority = observe_only;
  };
}
