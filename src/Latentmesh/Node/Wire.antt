-- ===== src/Latentmesh/Node/Wire.antt =====
-- A state of drone 3 that a node of src/latentmesh/node.rs hears and decodes.
use ruv_drone.Base.{ℕ, ◌≡◌, refl, some, none, ok, contains, if◌then◌else◌, ◌==◌}
use ruv_drone.Base.TreeMap
use ruv_drone.Types.{DroneState}
use ruv_drone.Latentmesh.Policy.Gate.{verified_observe_only}
use ruv_drone.Latentmesh.Policy.Delivery.{default_config, new_policy}
use ruv_drone.Latentmesh.Protocol.Types.{stream_id_for_source}
use ruv_drone.Latentmesh.Protocol.Receive.{
  settle_admission, admit_complete, settle_fragment, ingest_opened, ingest_ready, ingest_checked,
  ingest_decoded_frame, ingest_decoding,
}
use ruv_drone.Latentmesh.Protocol.Session.{
  count_fresh, rejection, count_rejection, record_result, active_source_count, check_frame,
  open_ingress,
}
use ruv_drone.Latentmesh.Protocol.Admit.{
  is_keyframe, bind_metadata, authenticate, open_envelope, open_delta, check_replay, start_epoch,
  continue_epoch, select_base, check_logical, check_timestamp, check_snapshot, admitted,
  open_message, apply_message, admit_message,
}
use ruv_drone.Latentmesh.Protocol.Ingress.{
  new_ingress, expired_contexts, clear_contexts, roll_window, refresh_ingress, settle_push,
  push_frame, ingest_fragment,
}
use ruv_drone.Latentmesh.Protocol.Receive
use ruv_drone.Latentmesh.Protocol.Radio.{packet, print, radio, sender}
use ruv_drone.Latentmesh.State.Symbols.{ℤ, Symbols, pos}
use ruv_drone.Latentmesh.State.Exact.{
  Value, exact_float, exact_rounding, exact_widening, q16, read_q16, read_u64, u64,
}
use ruv_drone.Latentmesh.State.Schema.{StateError, required_fields, failsafe_from_code}
use ruv_drone.Latentmesh.State.Ranges.{
  validate_bounded, validate_domain_ranges, validate_each, validate_q16,
}
use ruv_drone.Latentmesh.State.Codec.{
  from_critical_state, read_drone, required_q16, required_u64, validate_field_set,
}
use ruv_drone.Latentmesh.State.Accepted.{IsAccepted}
use ruv_drone.Latentmesh.Node.Endpoint.{
  LatentMeshNode, VerifiedAdvisory, context_of, ingest_frame_bytes, settle,
}
use ruv_drone.Latentmesh.Node.Sample.{advisory, listener}
use ruv_drone.Latentmesh.Node.Telemetry.{ingest_frame_bytes-IsAccepted}

-- A critical state is its time: of drone 3, at rest at the origin.
abbrev field : ℕ → ℕ → Value
field time i =
    if i == 1
    then u64 1
    else if i == 16
    then u64 3
    else if i == 1026
    then u64 time
    else if i == 1027
    then u64 0
    else q16 (pos 0)

abbrev timed : Symbols ℕ ℕ
timed = record {
  Symbol = Value;
  u64_symbol = u64;
  q16_symbol = q16;
  as_u64 = read_u64;
  as_q16 = read_q16;
  new = 0;
  set = λ c i v. ok c;
  get = λ c i. if contains i required_fields then some (field c i) else none;
  field_ids = λ c. required_fields;
}

abbrev drone : DroneState ℤ ℤ
drone = record {
  id = 3;
  position = record { x = pos 0; y = pos 0; z = pos 0 };
  velocity = record { vx = pos 0; vy = pos 0; vz = pos 0 };
  heading_rad = pos 0;
  altitude_agl_m = pos 0;
  battery_pct = pos 0;
  link_quality = pos 0;
  timestamp_ms = 1_000;
}

abbrev node : LatentMeshNode radio (StateError ℕ) ℤ ℤ
node = listener (new_policy default_config)

abbrev observed : VerifiedAdvisory radio ℤ ℤ
observed = advisory drone

heard :
    (ingest_frame_bytes radio sender
      (from_critical_state timed)
      node
      3
      1_000
      (print (packet 0 0 1_000))).1
    ≡ ok (some observed)
unfolding ingest_frame_bytes Receive.ingest_frame_bytes settle context_of verified_observe_only
    stream_id_for_source settle_admission admit_complete settle_fragment ingest_opened ingest_ready
    ingest_checked ingest_decoded_frame ingest_decoding rejection count_rejection record_result
    active_source_count check_frame open_ingress is_keyframe bind_metadata authenticate
    open_envelope open_delta check_replay start_epoch continue_epoch select_base check_logical
    check_timestamp check_snapshot admitted open_message apply_message admit_message new_ingress
    expired_contexts clear_contexts roll_window refresh_ingress settle_push push_frame
    ingest_fragment TreeMap.contains_key count_fresh TreeMap.insert new_policy default_config
    from_critical_state read_drone required_q16 required_u64 validate_field_set failsafe_from_code
    validate_bounded validate_domain_ranges validate_each validate_q16
heard = refl

ingest_frame_bytes-IsAccepted_example :
    (observed.received.snapshot.drone.id ≡ 3)
    × ((c : ℕ) × IsAccepted timed c observed.received.snapshot)
ingest_frame_bytes-IsAccepted_example =
    ingest_frame_bytes-IsAccepted radio sender timed node 3 1_000 (print (packet 0 0 1_000))
      observed heard
