-- ===== src/Latentmesh/Policy/Sample.antt =====
-- A link, a policy and messages for the tests of src/latentmesh/policy.rs and of its users.
use ruv_drone.Base.{some, none}
use ruv_drone.Base.Fixed.{Fixed, fixed_float}
use ruv_drone.Latentmesh.Policy.Gate.{RequestedAction, SecurityContext}
use ruv_drone.Latentmesh.Policy.Traffic.{AdaptivePolicy, LinkSnapshot, MessageIntent, TrafficClass}
use ruv_drone.Latentmesh.Policy.Delivery.{default_config, new_policy}

abbrev pub link : LinkSnapshot Fixed
link = record {
  observed_at_ms = 2_000;
  rtt_ms = some 20_000_000;
  packet_loss = some 10_000;
  throughput_bps = some 1_000_000_000_000;
  queue_delay_ms = some 1_000_000;
  energy_per_byte_mj = some 10_000;
  energy_remaining_mj = some 100_000_000_000;
}

abbrev pub message_with : SecurityContext → TrafficClass → RequestedAction → MessageIntent Fixed
message_with context class action = record {
  traffic_class = class;
  logical_bytes = 100;
  wire_bytes = 100;
  utility = some 500_000;
  created_at_ms = 2_000;
  deadline_at_ms = 4_000;
  encode_energy_mj = some 0;
  security = context;
  action = action;
  residual = none;
}

abbrev pub policy : AdaptivePolicy Fixed
policy = new_policy default_config
