-- ===== src/Latentmesh/Policy/Tests.antt =====
-- Concrete runs of src/latentmesh/policy.rs: one gate, one link and a few messages.
use ruv_drone.Base.{◌+◌, ◌*◌, ◌≤◌, ◌<◌, ◌≡◌, ◌↔◌, refl, [], ◌∷◌, some, ok, arith}
use mathlib.Core.List.{Perm}
use ruv_drone.Base.Fixed.{Fixed, Fixed-IsOrdered, fixed_float}
use ruv_drone.Latentmesh.Policy.Gate.{
  AuthorityLevel, AuthorizedCapability, CapabilityGate, RequestedAction, SecurityContext, authorize,
  default_gate_config, admit_action, is_stale_context, new_gate, rank, verified_observe_only,
}
use ruv_drone.Latentmesh.Policy.Admission.{Grants, IsTrusted, authorize_iff}
use ruv_drone.Latentmesh.Policy.Traffic.{
  AckMode, DeliveryPlan, MessageIntent, TrafficClass, expanded_wire_bytes, max_age_ms, permits,
  plain, send,
}
use ruv_drone.Latentmesh.Policy.Delivery.{
  ack_for, check_inputs, config_values_valid, default_config, delivery_treatment,
  estimated_energy_mj, estimated_latency_ms, evaluate, evaluate_result, is_over_budget,
  is_unreachable, is_valid_link, new_policy, plan_delivery, priority_weight, redundancy_for,
  utility_per_byte, validate_residual,
}
use ruv_drone.Latentmesh.Policy.Treatment.{
  Stronger, delivery_treatment_mono, expanded_wire_bytes-ceiling,
}
use ruv_drone.Latentmesh.Policy.Plans.{IsJustified, evaluate-IsJustified}
use ruv_drone.Latentmesh.Policy.Sample.{link, message_with, policy}
use ruv_drone.Latentmesh.Policy.Schedule.{AreInOrder, decisions, schedule, schedule-AreInOrder}

abbrev gate : CapabilityGate
gate = new_gate default_gate_config

abbrev context : SecurityContext
context = verified_observe_only 1_000 5_000

authorize_iff_example :
    (authorize gate 2_000 context RequestedAction.observe ≡ ok AuthorizedCapability.observe) ↔ (
      IsTrusted gate 2_000 context
      × ((top : AuthorityLevel) × Grants gate RequestedAction.observe AuthorizedCapability.observe
            top
          × (rank context.requested_authority ≤ rank top)))
authorize_iff_example =
    authorize_iff gate 2_000 context RequestedAction.observe AuthorizedCapability.observe

expanded_wire_bytes-ceiling_example :
    (101 * 2 * 135 ≤ 100 * expanded_wire_bytes 101 (plain 2 35))
    × (100 * expanded_wire_bytes 101 (plain 2 35) < 101 * 2 * 135 + 100)
    × (101 ≤ expanded_wire_bytes 101 (plain 2 35))
expanded_wire_bytes-ceiling_example =
    expanded_wire_bytes-ceiling 101 (plain 2 35) (ground arith)
      (record { some_copy = ground arith; few_copies = ground arith; some_parity = ground arith })

delivery_treatment_mono_example :
    Stronger
      (delivery_treatment {W = Fixed} (some 100_000) TrafficClass.state_sync)
      (delivery_treatment {W = Fixed} (some 300_000) TrafficClass.state_sync)
delivery_treatment_mono_example =
    delivery_treatment_mono Fixed-IsOrdered (some 100_000) (some 300_000) TrafficClass.state_sync
      refl

abbrev message : TrafficClass → RequestedAction → MessageIntent Fixed
message = message_with context

abbrev observation : MessageIntent Fixed
observation = message TrafficClass.observation RequestedAction.observe

abbrev plan : DeliveryPlan Fixed
plan = record {
  capability = AuthorizedCapability.observe;
  ack = AckMode.none;
  redundancy = plain 1 0;
  estimated_wire_bytes = 100;
  estimated_latency_ms = some 11_800_000;
  estimated_energy_mj = some 1_000_000;
  utility_per_byte = some 9_800;
}

-- The message of the link above is sent, under this plan.
sent : evaluate policy 2_100 link observation ≡ send plan
unfolding evaluate evaluate_result check_inputs is_valid_link config_values_valid validate_residual
    delivery_treatment ack_for redundancy_for plan_delivery estimated_latency_ms is_unreachable
    estimated_energy_mj is_over_budget utility_per_byte priority_weight max_age_ms permits
    expanded_wire_bytes authorize is_stale_context admit_action new_policy default_config new_gate
    verified_observe_only
sent = refl

evaluate-IsJustified_example : IsJustified policy 2_100 link observation plan
evaluate-IsJustified_example = evaluate-IsJustified policy 2_100 link observation plan sent

abbrev sync : MessageIntent Fixed
sync = message TrafficClass.state_sync RequestedAction.state_sync

abbrev blind : MessageIntent Fixed
blind = message TrafficClass.state_sync RequestedAction.observe

schedule-AreInOrder_example :
    Perm
      (schedule policy 2_100 link (blind ∷ observation ∷ sync ∷ []))
      (decisions policy 2_100 link 0 (blind ∷ observation ∷ sync ∷ []))
    × AreInOrder (schedule policy 2_100 link (blind ∷ observation ∷ sync ∷ []))
schedule-AreInOrder_example =
    schedule-AreInOrder Fixed-IsOrdered policy 2_100 link (blind ∷ observation ∷ sync ∷ [])
