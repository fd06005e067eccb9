-- ===== src/Latentmesh/Policy/Delivery.antt =====
-- The delivery policy of src/latentmesh/policy.rs: evidence, link treatment and `evaluate`.
-- `W` is `f64`; its arithmetic is left to the parameter.
use ruv_drone.Base.{
  ℕ, Bool, not, ◌&&◌, ◌||◌, ltb, ◌==◌, if◌then◌else◌, Option, some, Result, ok, err, ◌>>=◌, ◌>>◌,
  reject_if, ok_or, saturating_add, saturating_sub,
}
use ruv_drone.Base.Float.{Float, in_range}
use ruv_drone.Latentmesh.Policy.Traffic.{
  AckMode, AdaptivePolicy, AdaptivePolicyConfig, DeliveryDecision, DeliveryPlan, LinkSnapshot,
  MessageIntent, Redundancy, ResidualEvidence, TrafficClass, bulk_snapshot, cooperative_task,
  critical_coordination, drop, expanded_wire_bytes, is_consequential, is_synchronizing,
  learned_residual, max_age_ms, observation, opportunistic, permits, plain, required, send,
  snapshot_request, state_sync,
}
use ruv_drone.Latentmesh.Policy.Gate.{
  AuthorizedCapability, PolicyDropReason, authorize, deadline_expired, deadline_unreachable,
  default_gate_config, energy_budget_exceeded, insufficient_utility, invalid_metric,
  link_too_degraded, new_gate, residual_not_validated, stale_input, traffic_class_mismatch,
}

-- A time that lies past the accepted skew, or too long ago.
abbrev pub is_off : ℕ → ℕ → ℕ → ℕ → Bool
is_off now_ms skew max_age t =
    ltb (saturating_add now_ms skew) t || ltb max_age (saturating_sub now_ms t)

module _ {W : Type 0} ⦃f : Float W⦄ where
  unfoldable pub default_config : AdaptivePolicyConfig W
  default_config = record {
    capability = default_gate_config;
    max_link_snapshot_age_ms = 2_000;
    minimum_energy_reserve_mj = f.decimal 50_000 1;
    max_message_energy_fraction = f.decimal 1 2;
    minimum_utility_per_byte = f.decimal 1 6;
    max_residual_evidence_age_ms = 86_400_000;
    residual_min_samples = 30;
    residual_min_delta_utility = f.decimal 0 1;
    residual_max_p_value = f.decimal 5 2;
    residual_max_relative_error = f.decimal 35 2;
    residual_min_task_success_delta = f.decimal 0 1;
  }

  unfoldable pub new_policy : AdaptivePolicyConfig W → AdaptivePolicy W
  new_policy c = record { config = c; gate = new_gate c.capability }

  unfoldable pub priority_weight : TrafficClass → W
  priority_weight critical_coordination = f.decimal 80 1
  priority_weight cooperative_task = f.decimal 60 1
  priority_weight state_sync = f.decimal 40 1
  priority_weight snapshot_request = f.decimal 30 1
  priority_weight observation = f.decimal 20 1
  priority_weight learned_residual = f.decimal 15 1
  priority_weight bulk_snapshot = f.decimal 10 1

  -- `x.is_finite() && x >= 0.0`.
  abbrev pub is_nonneg : W → Bool
  is_nonneg x = f.is_finite x && f.le (f.decimal 0 1) x

  unfoldable pub is_valid_link : LinkSnapshot W → Bool
  is_valid_link l =
      is_nonneg l.rtt_ms
      && f.is_finite l.packet_loss
      && in_range (f.decimal 0 1) (f.decimal 10 1) l.packet_loss
      && f.is_finite l.throughput_bps
      && f.lt (f.decimal 0 1) l.throughput_bps
      && is_nonneg l.queue_delay_ms
      && is_nonneg l.energy_per_byte_mj
      && is_nonneg l.energy_remaining_mj

  unfoldable pub valid_metrics : ResidualEvidence W → Bool
  valid_metrics e =
      f.is_finite e.measured_delta_utility
      && f.is_finite e.p_value
      && f.is_finite e.heldout_relative_residual
      && f.is_finite e.task_success_delta
      && in_range (f.neg (f.decimal 10 1)) (f.decimal 10 1) e.measured_delta_utility
      && in_range (f.decimal 0 1) (f.decimal 10 1) e.p_value
      && f.le (f.decimal 0 1) e.heldout_relative_residual
      && in_range (f.neg (f.decimal 10 1)) (f.decimal 10 1) e.task_success_delta

  unfoldable pub config_values_valid : AdaptivePolicyConfig W → Bool
  config_values_valid c =
      is_nonneg c.minimum_energy_reserve_mj
      && f.is_finite c.max_message_energy_fraction
      && f.lt (f.decimal 0 1) c.max_message_energy_fraction
      && f.le c.max_message_energy_fraction (f.decimal 10 1)
      && is_nonneg c.minimum_utility_per_byte
      && f.is_finite c.residual_min_delta_utility
      && f.is_finite c.residual_max_p_value
      && in_range (f.decimal 0 1) (f.decimal 10 1) c.residual_max_p_value
      && is_nonneg c.residual_max_relative_error
      && f.is_finite c.residual_min_task_success_delta

  unfoldable pub is_unproven : AdaptivePolicyConfig W → ℕ → ResidualEvidence W → Bool
  is_unproven c now_ms e =
      is_off now_ms c.capability.max_clock_skew_ms c.max_residual_evidence_age_ms e.evaluated_at_ms
      || not e.causal_controls_passed
      || ltb e.sample_count c.residual_min_samples
      || f.le e.measured_delta_utility c.residual_min_delta_utility
      || not (in_range (f.decimal 0 1) c.residual_max_p_value e.p_value)
      || f.lt c.residual_max_relative_error e.heldout_relative_residual
      || f.lt e.task_success_delta c.residual_min_task_success_delta
      || not e.model_compatible
      || not e.decoder_trusted
      || not e.semantic_fallback_available

  unfoldable pub validate_residual :
      AdaptivePolicyConfig W
      → ℕ
      → TrafficClass
      → Option (ResidualEvidence W)
      → Result PolicyDropReason (Unit {0})
  validate_residual c now_ms learned_residual (some e) = do
    reject_if (not (valid_metrics e)) invalid_metric
    reject_if (is_unproven c now_ms e) residual_not_validated
  validate_residual c now_ms learned_residual Option.none = err residual_not_validated
  validate_residual c now_ms _ (some e) = err traffic_class_mismatch
  validate_residual c now_ms _ Option.none = ok tt

  unfoldable pub redundancy_for : W → Redundancy
  redundancy_for loss =
      if f.le (f.decimal 50 2) loss
      then plain 3 50
      else if f.le (f.decimal 25 2) loss
      then plain 2 35
      else if f.le (f.decimal 10 2) loss
      then plain 1 20
      else plain 1 0

  unfoldable pub ack_for : W → TrafficClass → AckMode
  ack_for loss class =
      if is_consequential class || f.le (f.decimal 25 2) loss
      then required
      else if is_synchronizing class || f.le (f.decimal 10 2) loss
      then opportunistic
      else AckMode.none

  unfoldable pub delivery_treatment : W → TrafficClass → Option (AckMode × Redundancy)
  delivery_treatment loss class =
      if f.le (f.decimal 80 2) loss || f.le (f.decimal 65 2) loss && not (is_consequential class)
      then Option.none
      else some (ack_for loss class, redundancy_for loss)

  unfoldable pub utility_per_byte : W → TrafficClass → ℕ → ℕ → Result PolicyDropReason W
  utility_per_byte utility class age_ms bytes = do
    reject_if
        (not (f.is_finite utility)
          || not (in_range (f.decimal 0 1) (f.decimal 10 1) utility)
          || bytes == 0)
        invalid_metric
    reject_if (ltb (max_age_ms class) age_ms) stale_input
    let freshness = f.sub (f.decimal 10 1) (f.div (f.of_nat age_ms) (f.of_nat (max_age_ms class)))
    ok (f.div (f.mul (f.mul utility (priority_weight class)) freshness) (f.of_nat bytes))

  -- The early returns of `evaluate` before the gate: metrics, the link's age, and the message's.
  unfoldable pub check_inputs :
      AdaptivePolicyConfig W
      → ℕ
      → LinkSnapshot W
      → MessageIntent W
      → Result PolicyDropReason (Unit {0})
  check_inputs c now_ms link intent = do
    reject_if
        (not (is_valid_link link)
          || not (f.is_finite intent.utility)
          || not (in_range (f.decimal 0 1) (f.decimal 10 1) intent.utility)
          || not (f.is_finite intent.encode_energy_mj)
          || f.lt intent.encode_energy_mj (f.decimal 0 1)
          || not (config_values_valid c)
          || intent.logical_bytes == 0
          || intent.wire_bytes == 0)
        invalid_metric
    reject_if
        (is_off now_ms c.capability.max_clock_skew_ms c.max_link_snapshot_age_ms
          link.observed_at_ms)
        stale_input
    reject_if
        (ltb intent.deadline_at_ms intent.created_at_ms
          || is_off now_ms c.capability.max_clock_skew_ms (max_age_ms intent.traffic_class)
              intent.created_at_ms)
        stale_input
    reject_if (ltb intent.deadline_at_ms now_ms) deadline_expired

  unfoldable pub estimated_latency_ms : LinkSnapshot W → AckMode → ℕ → W
  estimated_latency_ms link ack bytes =
      let transmit_ms = f.div (f.mul (f.of_nat bytes) (f.decimal 80_000 1)) link.throughput_bps in
      let ack_ms : W = elim ack [ required ↦ link.rtt_ms | _ ↦ f.decimal 0 1 ] in
      f.add (f.add (f.add link.queue_delay_ms (f.div link.rtt_ms (f.decimal 20 1))) transmit_ms)
        ack_ms

  unfoldable pub is_unreachable : ℕ → W → ℕ → Bool
  is_unreachable now_ms latency deadline =
      not (f.is_finite latency) || ltb deadline (saturating_add now_ms (f.to_u64 (f.ceil latency)))

  unfoldable pub estimated_energy_mj : LinkSnapshot W → W → ℕ → W
  estimated_energy_mj link encode bytes =
      f.add encode (f.mul (f.of_nat bytes) link.energy_per_byte_mj)

  unfoldable pub is_over_budget : AdaptivePolicyConfig W → LinkSnapshot W → W → Bool
  is_over_budget c link energy =
      not (f.is_finite energy)
      || f.lt (f.max (f.sub link.energy_remaining_mj c.minimum_energy_reserve_mj) (f.decimal 0 1))
          energy
      || f.lt (f.mul link.energy_remaining_mj c.max_message_energy_fraction) energy

  -- The rest of `evaluate`, once the treatment is chosen.
  unfoldable pub plan_delivery :
      AdaptivePolicyConfig W
      → ℕ
      → LinkSnapshot W
      → MessageIntent W
      → AuthorizedCapability
      → AckMode
      → Redundancy
      → Result PolicyDropReason (DeliveryPlan W)
  plan_delivery c now_ms link intent capability ack redundancy = do
    let bytes = expanded_wire_bytes intent.wire_bytes redundancy
    let latency = estimated_latency_ms link ack bytes
    reject_if (is_unreachable now_ms latency intent.deadline_at_ms) deadline_unreachable
    let energy = estimated_energy_mj link intent.encode_energy_mj bytes
    reject_if (is_over_budget c link energy) energy_budget_exceeded
    density ←
        utility_per_byte intent.utility intent.traffic_class
          (saturating_sub now_ms intent.created_at_ms) bytes
    reject_if (f.lt density c.minimum_utility_per_byte) insufficient_utility
    ok (record {
      capability = capability;
      ack = ack;
      redundancy = redundancy;
      estimated_wire_bytes = bytes;
      estimated_latency_ms = latency;
      estimated_energy_mj = energy;
      utility_per_byte = density;
    })

  unfoldable pub evaluate_result :
      AdaptivePolicy W
      → ℕ
      → LinkSnapshot W
      → MessageIntent W
      → Result PolicyDropReason (DeliveryPlan W)
  evaluate_result p now_ms link intent = do
    check_inputs p.config now_ms link intent
    capability ← authorize p.gate now_ms intent.security intent.action
    reject_if (not (permits intent.traffic_class intent.action)) traffic_class_mismatch
    validate_residual p.config now_ms intent.traffic_class intent.residual
    treatment ← ok_or (delivery_treatment link.packet_loss intent.traffic_class) link_too_degraded
    plan_delivery p.config now_ms link intent capability treatment.0 treatment.1

-- An early return of `evaluate` is the decision to drop.
abbrev pub decide : {W : Type 0} → Result PolicyDropReason (DeliveryPlan W) → DeliveryDecision W
decide (ok plan) = send plan
decide (err reason) = drop reason

module _ {W : Type 0} ⦃f : Float W⦄ where
  unfoldable pub evaluate :
      AdaptivePolicy W → ℕ → LinkSnapshot W → MessageIntent W → DeliveryDecision W
  evaluate p now_ms link intent = decide (evaluate_result p now_ms link intent)
