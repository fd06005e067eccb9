-- ===== src/Latentmesh/Node/Tests.antt =====
-- A node of src/latentmesh/node.rs that hears drone 3, on a small radio.
use ruv_drone.Base.{
  ◌+◌, ◌≤◌, ◌≡◌, refl, ℕ, List, [], ◌∷◌, some, Result, ok, count, saturate_u64, saturating_add,
}
use ruv_drone.Base.Fixed.{Fixed, fixed_float}
use ruv_drone.Base.TreeMap
use ruv_drone.Types.{DroneState}
use ruv_drone.Failsafe.{nominal}
use ruv_drone.Latentmesh.Policy.Admission.{IsForbidden}
use ruv_drone.Latentmesh.Policy.Gate.{
  AuthorizedCapability, RequestedAction, authorize, admit_action, is_stale_context, new_gate,
  verified_observe_only,
}
use ruv_drone.Latentmesh.Policy.Traffic.{
  AckMode, DeliveryPlan, MessageIntent, TrafficClass, expanded_wire_bytes, max_age_ms, permits,
  plain, send,
}
use ruv_drone.Latentmesh.Policy.Delivery.{
  evaluate, evaluate_result, check_inputs, is_valid_link, config_values_valid, validate_residual,
  delivery_treatment, ack_for, redundancy_for, plan_delivery, estimated_latency_ms, is_unreachable,
  estimated_energy_mj, is_over_budget, utility_per_byte, priority_weight, new_policy,
  default_config,
}
use ruv_drone.Latentmesh.Policy.Sample.{link, message_with, policy}
use ruv_drone.Latentmesh.Protocol.Types.{AdvisoryPeerSnapshot, stream_id_for_source}
use ruv_drone.Latentmesh.Protocol.Receive.{
  settle_admission, admit_complete, settle_fragment, ingest_opened, ingest_ready, ingest_checked,
  ingest_decoded_frame, ingest_decoding,
}
use ruv_drone.Latentmesh.Protocol.Session.{
  count_fresh, rejection, count_rejection, record_result, active_source_count, check_frame,
  open_ingress,
}
use ruv_drone.Latentmesh.Protocol.Admit.{
  is_keyframe, bind_metadata, authenticate, open_envelope, open_delta, check_replay, start_epoch,
  continue_epoch, select_base, check_logical, check_timestamp, check_snapshot, admitted,
  open_message, apply_message, admit_message,
}
use ruv_drone.Latentmesh.Protocol.Ingress.{
  new_ingress, expired_contexts, clear_contexts, roll_window, refresh_ingress, settle_push,
  push_frame, ingest_fragment,
}
use ruv_drone.Latentmesh.Protocol.Receive
use ruv_drone.Latentmesh.Protocol.Radio.{packet, print, radio, sender}
use ruv_drone.Latentmesh.Metrics.Counters.{
  DropCounter, drop_counter, load, reassembly_failures, received_messages,
}
use ruv_drone.Latentmesh.Node.Sample.{advisory, listener}
use ruv_drone.Latentmesh.Node.Endpoint.{
  LatentMeshNode, VerifiedAdvisory, context_of, evaluate_delivery, ingest_frame_bytes, settle,
}
use ruv_drone.Latentmesh.Node.Observations.{evaluate_delivery-observed}
use ruv_drone.Latentmesh.Node.Accounts.{
  ingest_all, ingest_all-counts, is_dropped_as, is_failure, is_snapshot,
}

abbrev drone : ℕ → DroneState Fixed Fixed
drone t = record {
  id = 3;
  position = record { x = some 0; y = some 0; z = some 0 };
  velocity = record { vx = some 0; vy = some 0; vz = some 0 };
  heading_rad = some 0;
  altitude_agl_m = some 0;
  battery_pct = some 90_000_000;
  link_quality = some 1_000_000;
  timestamp_ms = t;
}

abbrev decode : ℕ → Result (Unit {0}) (AdvisoryPeerSnapshot Fixed Fixed)
decode t = ok (record { drone = drone t; failsafe = nominal })

abbrev node : LatentMeshNode radio Unit Fixed Fixed
node = listener policy

-- A keyframe, its repetition, and bytes that are no frame.
abbrev frames : List (ℕ × ℕ × List ℕ)
frames =
    (3, 1_000, print (packet 0 0 1_000))
    ∷ (3, 1_010, print (packet 0 0 1_000))
    ∷ (3, 1_020, [])
    ∷ []

ingest_all-counts_example :
    let (m, answers) = ingest_all radio sender decode node frames in
    (load received_messages m.metrics
      ≡ saturate_u64 (count (is_snapshot radio sender decode) answers))
    × ((k : DropCounter)
        → load (drop_counter k) m.metrics
          ≡ saturate_u64 (count (is_dropped_as radio sender decode k) answers))
    × (load reassembly_failures m.metrics
        ≡ saturate_u64 (count (is_failure radio sender decode) answers))
ingest_all-counts_example = ingest_all-counts radio sender decode node frames refl

abbrev observed : VerifiedAdvisory radio Fixed Fixed
observed = advisory (drone 1_000)

heard :
    (ingest_frame_bytes radio sender decode node 3 1_000 (print (packet 0 0 1_000))).1
    ≡ ok (some observed)
unfolding ingest_frame_bytes Receive.ingest_frame_bytes settle context_of verified_observe_only
    stream_id_for_source settle_admission admit_complete settle_fragment ingest_opened ingest_ready
    ingest_checked ingest_decoded_frame ingest_decoding rejection count_rejection record_result
    active_source_count check_frame open_ingress is_keyframe bind_metadata authenticate
    open_envelope open_delta check_replay start_epoch continue_epoch select_base check_logical
    check_timestamp check_snapshot admitted open_message apply_message admit_message new_ingress
    expired_contexts clear_contexts roll_window refresh_ingress settle_push push_frame
    ingest_fragment TreeMap.contains_key count_fresh TreeMap.insert new_policy default_config
heard = refl

abbrev intent : MessageIntent Fixed
intent = message_with observed.security TrafficClass.observation RequestedAction.observe

abbrev plan : DeliveryPlan Fixed
plan = record {
  capability = AuthorizedCapability.observe;
  ack = AckMode.none;
  redundancy = plain 1 0;
  estimated_wire_bytes = 100;
  estimated_latency_ms = some 11_800_000;
  estimated_energy_mj = some 1_000_000;
  utility_per_byte = some 10_000;
}

relayed : (evaluate_delivery radio node 1_500 link intent).1 ≡ send plan
unfolding evaluate_delivery evaluate evaluate_result check_inputs is_valid_link config_values_valid
    validate_residual delivery_treatment ack_for redundancy_for plan_delivery estimated_latency_ms
    is_unreachable estimated_energy_mj is_over_budget utility_per_byte priority_weight new_policy
    default_config max_age_ms permits expanded_wire_bytes authorize is_stale_context admit_action
    new_gate verified_observe_only
relayed = refl

evaluate_delivery-observed_example :
    (1_000 ≤ saturating_add 1_500 node.policy.gate.config.max_clock_skew_ms)
    × (1_500 ≤ 1_000 + node.receiver.config.advisory_ttl_ms)
    × (1_500 ≤ 1_000 + node.policy.config.capability.max_context_age_ms)
    × ¬ IsForbidden intent.action
evaluate_delivery-observed_example =
    evaluate_delivery-observed radio sender decode node node 3 1_000 1_500
      (print (packet 0 0 1_000)) observed link intent plan heard refl relayed
