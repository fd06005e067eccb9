-- ===== src/Latentmesh/Policy/Traffic.antt =====
-- The data of the delivery policy of src/latentmesh/policy.rs: traffic classes, the link, the
-- evidence, and the plan. `W` is `f64`.
use ruv_drone.Base.{ℕ, ◌+◌, ◌/◌, Bool, true, false, Option, saturating_add, saturating_mul}
use ruv_drone.Latentmesh.Policy.Gate.{
  AuthorizedCapability, CapabilityGate, CapabilityGateConfig, PolicyDropReason, RequestedAction,
  SecurityContext,
}

pub data TrafficClass : Type 0 where
  critical_coordination cooperative_task state_sync snapshot_request : TrafficClass
  observation learned_residual bulk_snapshot : TrafficClass

unfoldable pub max_age_ms : TrafficClass → ℕ
max_age_ms critical_coordination = 2_000
max_age_ms cooperative_task = 2_000
max_age_ms learned_residual = 2_000
max_age_ms state_sync = 3_000
max_age_ms observation = 5_000
max_age_ms snapshot_request = 10_000
max_age_ms bulk_snapshot = 60_000

unfoldable pub permits : TrafficClass → RequestedAction → Bool
permits critical_coordination RequestedAction.nonbinding_advisory = true
permits cooperative_task (RequestedAction.cooperative_task_proposal _ _ _ _) = true
permits state_sync RequestedAction.state_sync = true
permits snapshot_request RequestedAction.snapshot_request = true
permits observation RequestedAction.observe = true
permits learned_residual RequestedAction.observe = true
permits bulk_snapshot RequestedAction.observe = true
permits _ _ = false

abbrev pub is_consequential : TrafficClass → Bool
is_consequential critical_coordination = true
is_consequential cooperative_task = true
is_consequential _ = false

abbrev pub is_synchronizing : TrafficClass → Bool
is_synchronizing state_sync = true
is_synchronizing snapshot_request = true
is_synchronizing _ = false

pub data AckMode : Type 0 where
  none opportunistic required : AckMode

pub record Redundancy : Type 0 where
  pub copies : ℕ
  pub parity_percent : ℕ

pub record LinkSnapshot (W : Type 0) : Type 0 where
  pub observed_at_ms : ℕ
  pub rtt_ms : W
  pub packet_loss : W
  pub throughput_bps : W
  pub queue_delay_ms : W
  pub energy_per_byte_mj : W
  pub energy_remaining_mj : W

pub record ResidualEvidence (W : Type 0) : Type 0 where
  pub evaluated_at_ms : ℕ
  pub causal_controls_passed : Bool
  pub sample_count : ℕ
  pub measured_delta_utility : W
  pub p_value : W
  pub heldout_relative_residual : W
  pub task_success_delta : W
  pub model_compatible : Bool
  pub decoder_trusted : Bool
  pub semantic_fallback_available : Bool

pub record MessageIntent (W : Type 0) : Type 0 where
  pub traffic_class : TrafficClass
  pub logical_bytes : ℕ
  pub wire_bytes : ℕ
  pub utility : W
  pub created_at_ms : ℕ
  pub deadline_at_ms : ℕ
  pub encode_energy_mj : W
  pub security : SecurityContext
  pub action : RequestedAction
  pub residual : Option (ResidualEvidence W)

pub record DeliveryPlan (W : Type 0) : Type 0 where
  pub capability : AuthorizedCapability
  pub ack : AckMode
  pub redundancy : Redundancy
  pub estimated_wire_bytes : ℕ
  pub estimated_latency_ms : W
  pub estimated_energy_mj : W
  pub utility_per_byte : W

pub data DeliveryDecision (W : Type 0) : Type 0 where
  send : DeliveryPlan W → DeliveryDecision W
  drop : PolicyDropReason → DeliveryDecision W

pub record AdaptivePolicyConfig (W : Type 0) : Type 0 where
  pub capability : CapabilityGateConfig
  pub max_link_snapshot_age_ms : ℕ
  pub minimum_energy_reserve_mj : W
  pub max_message_energy_fraction : W
  pub minimum_utility_per_byte : W
  pub max_residual_evidence_age_ms : ℕ
  pub residual_min_samples : ℕ
  pub residual_min_delta_utility : W
  pub residual_max_p_value : W
  pub residual_max_relative_error : W
  pub residual_min_task_success_delta : W

pub record AdaptivePolicy (W : Type 0) : Type 0 where
  pub config : AdaptivePolicyConfig W
  pub gate : CapabilityGate

-- The length on the wire: copies, each with its parity, rounded up to whole bytes.
unfoldable pub expanded_wire_bytes : ℕ → Redundancy → ℕ
expanded_wire_bytes base r =
    saturating_add (saturating_mul (saturating_mul base r.copies) (100 + r.parity_percent)) 99 / 100

abbrev pub plain : ℕ → ℕ → Redundancy
plain copies parity = record { copies = copies; parity_percent = parity }
