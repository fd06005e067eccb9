-- ===== src/Latentmesh/Policy/Plans.antt =====
-- What src/latentmesh/policy.rs promises of a message that `evaluate` sends.
use ruv_drone.Base.{
  ℕ, ◌+◌, ◌-◌, ◌≤◌, ◌≡◌, true, false, not, Option, some, Result, ok, err, arith, reject_if-eq-ok,
  bind-eq-ok, ok_or-eq-ok, saturating_add, ok_or,
}
use ruv_drone.Base.Float.{Float}
use ruv_drone.Latentmesh.Policy.Gate.{
  authorize, link_too_degraded, PolicyDropReason, AuthorizedCapability,
}
use ruv_drone.Latentmesh.Policy.Admission.{IsTrusted, authorize_iff}
use ruv_drone.Latentmesh.Policy.Traffic.{
  AckMode, AdaptivePolicy, AdaptivePolicyConfig, DeliveryPlan, LinkSnapshot, MessageIntent,
  Redundancy, ResidualEvidence, TrafficClass, expanded_wire_bytes, learned_residual, max_age_ms,
  permits, required, send,
}
use ruv_drone.Latentmesh.Policy.Delivery.{
  check_inputs, decide, delivery_treatment, evaluate, evaluate_result, plan_delivery,
  validate_residual, is_unreachable, is_over_budget, is_unproven, valid_metrics, priority_weight,
  estimated_energy_mj, estimated_latency_ms, utility_per_byte,
}

module _ {W : Type 0} ⦃f : Float W⦄ where
  -- The message is neither from the future nor past its deadline nor past its class's age.
  pub record IsTimely (c : AdaptivePolicyConfig W) (now_ms : ℕ) (i : MessageIntent W) : Type 0 where
    pub not_future : i.created_at_ms ≤ saturating_add now_ms c.capability.max_clock_skew_ms
    pub ordered : i.created_at_ms ≤ i.deadline_at_ms
    pub not_late : now_ms ≤ i.deadline_at_ms
    pub not_old : now_ms ≤ i.created_at_ms + max_age_ms i.traffic_class

  -- The link's figures are as recent as the configuration asks for.
  abbrev pub IsRecent : AdaptivePolicyConfig W → ℕ → LinkSnapshot W → Type 0
  IsRecent c now_ms link =
      (link.observed_at_ms ≤ saturating_add now_ms c.capability.max_clock_skew_ms)
      × (now_ms ≤ link.observed_at_ms + c.max_link_snapshot_age_ms)

  -- The evidence for a learned residual: recent, with causal controls and enough samples, its gain,
  -- significance, held-out error and task success within their limits, and a model that the
  -- receiver can decode or do without.
  pub record IsProven (c : AdaptivePolicyConfig W) (now_ms : ℕ) (e : ResidualEvidence W)
      : Type 0 where
    pub not_future : e.evaluated_at_ms ≤ saturating_add now_ms c.capability.max_clock_skew_ms
    pub not_old : now_ms ≤ e.evaluated_at_ms + c.max_residual_evidence_age_ms
    pub controlled : e.causal_controls_passed ≡ true
    pub sampled : c.residual_min_samples ≤ e.sample_count
    pub finite :
        (f.is_finite e.measured_delta_utility ≡ true)
        × (f.is_finite e.p_value ≡ true)
        × (f.is_finite e.heldout_relative_residual ≡ true)
        × (f.is_finite e.task_success_delta ≡ true)
    pub gains : f.le e.measured_delta_utility c.residual_min_delta_utility ≡ false
    pub significant :
        (f.le (f.decimal 0 1) e.p_value ≡ true) × (f.le e.p_value c.residual_max_p_value ≡ true)
    pub accurate : f.lt c.residual_max_relative_error e.heldout_relative_residual ≡ false
    pub succeeds : f.lt e.task_success_delta c.residual_min_task_success_delta ≡ false
    pub compatible : e.model_compatible ≡ true
    pub trusted : e.decoder_trusted ≡ true
    pub fallback : e.semantic_fallback_available ≡ true

  -- A learned residual has its evidence, and nothing else comes with any.
  pub HasProof : AdaptivePolicyConfig W → ℕ → TrafficClass → Option (ResidualEvidence W) → Type 0
  HasProof c now_ms learned_residual (some e) = IsProven c now_ms e
  HasProof c now_ms learned_residual Option.none = ⊥
  HasProof c now_ms _ (some e) = ⊥
  HasProof c now_ms _ Option.none = Unit

  -- The wait for an acknowledgement, if one is required.
  abbrev pub acknowledgement_ms : LinkSnapshot W → AckMode → W
  acknowledgement_ms link required = link.rtt_ms
  acknowledgement_ms link _ = f.decimal 0 1

  -- The plan's own numbers: its bytes, its latency, its energy and its utility, and their limits.
  -- The latency is the queue, half the round trip, the bits over the throughput in milliseconds
  -- and the acknowledgement; the energy is that of encoding and of every byte.
  pub record IsAffordable (c : AdaptivePolicyConfig W) (now_ms : ℕ) (link : LinkSnapshot W)
      (i : MessageIntent W) (plan : DeliveryPlan W) : Type 0 where
    pub bytes : plan.estimated_wire_bytes ≡ expanded_wire_bytes i.wire_bytes plan.redundancy
    pub latency :
        plan.estimated_latency_ms
        ≡ f.add
            (f.add (f.add link.queue_delay_ms (f.div link.rtt_ms (f.decimal 20 1))) (
              f.div
                (f.mul (f.of_nat plan.estimated_wire_bytes) (f.decimal 80_000 1))
                link.throughput_bps))
            (acknowledgement_ms link plan.ack)
    pub finite_latency : f.is_finite plan.estimated_latency_ms ≡ true
    pub arrives :
        saturating_add now_ms (f.to_u64 (f.ceil plan.estimated_latency_ms)) ≤ i.deadline_at_ms
    pub energy :
        plan.estimated_energy_mj
        ≡ f.add i.encode_energy_mj
            (f.mul (f.of_nat plan.estimated_wire_bytes) link.energy_per_byte_mj)
    pub finite_energy : f.is_finite plan.estimated_energy_mj ≡ true
    pub above_reserve :
        f.lt
          (f.max (f.sub link.energy_remaining_mj c.minimum_energy_reserve_mj) (f.decimal 0 1))
          plan.estimated_energy_mj
        ≡ false
    pub small_share :
        f.lt (f.mul link.energy_remaining_mj c.max_message_energy_fraction) plan.estimated_energy_mj
        ≡ false
    pub utility :
        plan.utility_per_byte
        ≡ f.div
            (f.mul (f.mul i.utility (priority_weight i.traffic_class)) (
              f.sub (f.decimal 10 1) (
                f.div
                  (f.of_nat (now_ms - i.created_at_ms))
                  (f.of_nat (max_age_ms i.traffic_class)))))
            (f.of_nat plan.estimated_wire_bytes)
    pub useful : f.lt plan.utility_per_byte c.minimum_utility_per_byte ≡ false

  check_inputs-IsTimely :
      (c : AdaptivePolicyConfig W) (now_ms : ℕ) (link : LinkSnapshot W) (i : MessageIntent W)
      {u : Unit {0}}
      → check_inputs c now_ms link i ≡ ok u
      → IsRecent c now_ms link × IsTimely c now_ms i
  unfolding check_inputs
  check_inputs-IsTimely c now_ms link i h = ground arith

  validate_residual-HasProof :
      (c : AdaptivePolicyConfig W) (now_ms : ℕ) (class : TrafficClass)
      (e : Option (ResidualEvidence W)) {u : Unit {0}}
      → validate_residual c now_ms class e ≡ ok u
      → HasProof c now_ms class e
  unfolding validate_residual valid_metrics is_unproven HasProof
  validate_residual-HasProof c now_ms class e h = ground (arith, h)

  plan_delivery-IsAffordable :
      (c : AdaptivePolicyConfig W) (now_ms : ℕ) (link : LinkSnapshot W) (i : MessageIntent W)
      (capability : AuthorizedCapability) (ack : AckMode) (r : Redundancy) (plan : DeliveryPlan W)
      → plan_delivery c now_ms link i capability ack r ≡ ok plan
      → IsAffordable c now_ms link i plan
        × (plan.capability ≡ capability)
        × (plan.ack ≡ ack)
        × (plan.redundancy ≡ r)
  unfolding plan_delivery is_unreachable is_over_budget estimated_latency_ms estimated_energy_mj
      utility_per_byte
  plan_delivery-IsAffordable c now_ms link i capability ack r plan h = ground arith

  decide-eq-send :
      (r : Result PolicyDropReason (DeliveryPlan W)) {plan : DeliveryPlan W}
      → decide r ≡ send plan
      → r ≡ ok plan
  decide-eq-send (ok p) h = ground arith
  decide-eq-send (err e) h = cc

  -- What holds of every plan that is sent.
  pub record IsJustified (p : AdaptivePolicy W) (now_ms : ℕ) (link : LinkSnapshot W)
      (i : MessageIntent W) (plan : DeliveryPlan W) : Type 0 where
    pub trusted : IsTrusted p.gate now_ms i.security
    pub authorized : authorize p.gate now_ms i.security i.action ≡ ok plan.capability
    pub matched : permits i.traffic_class i.action ≡ true
    pub proven : HasProof p.config now_ms i.traffic_class i.residual
    pub treated :
        delivery_treatment link.packet_loss i.traffic_class ≡ some (plan.ack, plan.redundancy)
    pub recent : IsRecent p.config now_ms link
    pub timely : IsTimely p.config now_ms i
    pub affordable : IsAffordable p.config now_ms link i plan

  -- A message is sent only with a trusted context, an authorized action that its class permits,
  -- recent and sufficient evidence for a learned residual and for nothing else, and the treatment
  -- for a recently measured loss; it is on time, arrives by its deadline by a finite estimate, and
  -- its energy and utility, computed as stated, are within the limits.
  pub evaluate-IsJustified :
      (p : AdaptivePolicy W) (now_ms : ℕ) (link : LinkSnapshot W) (i : MessageIntent W)
      (plan : DeliveryPlan W)
      → evaluate p now_ms link i ≡ send plan
      → IsJustified p now_ms link i plan
  unfolding evaluate evaluate_result
  evaluate-IsJustified p now_ms link i plan h =
      let (_, inputs, h1) =
        bind-eq-ok (check_inputs p.config now_ms link i) _ (decide-eq-send _ h) in
      let (capability, auth, h2) = bind-eq-ok (authorize p.gate now_ms i.security i.action) _ h1 in
      let (permit, h3) = reject_if-eq-ok (not (permits i.traffic_class i.action)) _ _ h2 in
      let (u, proof, h4) =
        bind-eq-ok (validate_residual p.config now_ms i.traffic_class i.residual) _ h3 in
      let (treatment, treat, h5) =
        bind-eq-ok (ok_or (delivery_treatment link.packet_loss i.traffic_class) link_too_degraded) _
          h4 in
      let (afford, e1, e2, e3) =
        plan_delivery-IsAffordable p.config now_ms link i capability treatment.0 treatment.1 plan
          h5 in
      record {
        trusted = ((authorize_iff p.gate now_ms i.security i.action capability).0 auth).0;
        authorized = rw e1 auth;
        matched = ground arith;
        proven = validate_residual-HasProof p.config now_ms i.traffic_class i.residual proof;
        treated = rw (e2, e3) (ok_or-eq-ok _ _ treat);
        recent = (check_inputs-IsTimely p.config now_ms link i inputs).0;
        timely = (check_inputs-IsTimely p.config now_ms link i inputs).1;
        affordable = afford;
      }
