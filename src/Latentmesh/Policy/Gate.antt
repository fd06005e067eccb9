-- ===== src/Latentmesh/Policy/Gate.antt =====
-- The capability gate of src/latentmesh/policy.rs: actions, authority, and `authorize`.
-- Times are milliseconds in a `u64`; the approved manifests are an ordered set.
use ruv_drone.Base.{
  ℕ, Bool, true, false, not, ◌&&◌, ◌||◌, ltb, ◌==◌, if◌then◌else◌, Result, ok, err, ◌>>=◌, ◌>>◌,
  reject_if, nat_key, saturating_add, saturating_sub,
}
use ruv_drone.Base.TreeMap
use ruv_drone.Base.TreeMap.{TreeSet, contains_key, get, insert, remove}

pub data AuthorityLevel : Type 0 where
  observe_only mission_coordination flight_authority : AuthorityLevel

-- The derived order.
abbrev pub rank : AuthorityLevel → ℕ
rank observe_only = 0
rank mission_coordination = 1
rank flight_authority = 2

abbrev pub exceeds : AuthorityLevel → AuthorityLevel → Bool
exceeds a b = ltb (rank b) (rank a)

abbrev pub max_authority : AuthorityLevel
max_authority = mission_coordination

pub data RequestedAction : Type 0 where
  observe state_sync snapshot_request nonbinding_advisory : RequestedAction
  cooperative_task_proposal :
      (manifest_id participant_count ttl_ms effort_units : ℕ) → RequestedAction
  actuator_command arm disarm flight_mode_change attitude_setpoint rate_setpoint : RequestedAction
  velocity_setpoint position_setpoint geofence_override failsafe_override : RequestedAction
  payload_release : RequestedAction
  unknown : ℕ → RequestedAction

pub data AuthorizedCapability : Type 0 where
  observe state_sync snapshot_request nonbinding_advisory : AuthorizedCapability
  cooperative_task_proposal : AuthorizedCapability

pub data PolicyDropReason : Type 0 where
  invalid_metric unauthenticated untrusted_source stale_input deadline_expired : PolicyDropReason
  deadline_unreachable unknown_action forbidden_action excessive_authority : PolicyDropReason
  proposal_out_of_bounds manifest_not_approved traffic_class_mismatch : PolicyDropReason
  link_too_degraded energy_budget_exceeded residual_not_validated : PolicyDropReason
  insufficient_utility : PolicyDropReason

pub record SecurityContext : Type 0 where
  pub authenticated : Bool
  pub trusted_source : Bool
  pub issued_at_ms : ℕ
  pub expires_at_ms : ℕ
  pub requested_authority : AuthorityLevel

unfoldable pub verified_observe_only : ℕ → ℕ → SecurityContext
verified_observe_only issued expires = record {
  authenticated = true;
  trusted_source = true;
  issued_at_ms = issued;
  expires_at_ms = expires;
  requested_authority = observe_only;
}

pub record CapabilityGateConfig : Type 0 where
  pub max_context_age_ms : ℕ
  pub max_clock_skew_ms : ℕ
  pub max_proposal_participants : ℕ
  pub max_proposal_ttl_ms : ℕ
  pub max_proposal_effort_units : ℕ

abbrev pub default_gate_config : CapabilityGateConfig
default_gate_config = record {
  max_context_age_ms = 30_000;
  max_clock_skew_ms = 2_000;
  max_proposal_participants = 64;
  max_proposal_ttl_ms = 60_000;
  max_proposal_effort_units = 10_000;
}

pub record CapabilityGate : Type 0 where
  pub config : CapabilityGateConfig
  pub approved_manifest_ids : TreeSet ℕ

unfoldable pub new_gate : CapabilityGateConfig → CapabilityGate
new_gate c = record { config = c; approved_manifest_ids = TreeMap.empty }

unfoldable pub approve_manifest : CapabilityGate → ℕ → CapabilityGate × Bool
unfolding contains_key
approve_manifest g id = if id == 0 then (g, false) else (
  record g { approved_manifest_ids = insert id tt g.approved_manifest_ids },
  not (contains_key id g.approved_manifest_ids),
)

unfoldable pub revoke_manifest : CapabilityGate → ℕ → CapabilityGate × Bool
unfolding contains_key
revoke_manifest g id = (
  record g { approved_manifest_ids = remove id g.approved_manifest_ids },
  contains_key id g.approved_manifest_ids,
)

unfoldable pub is_manifest_approved : CapabilityGate → ℕ → Bool
unfolding contains_key
is_manifest_approved g id = not (id == 0) && contains_key id g.approved_manifest_ids

-- The freshness test of `authorize`.
unfoldable pub is_stale_context : CapabilityGateConfig → ℕ → SecurityContext → Bool
is_stale_context config now_ms c =
    ltb (saturating_add now_ms config.max_clock_skew_ms) c.issued_at_ms
    || ltb c.expires_at_ms c.issued_at_ms
    || ltb c.expires_at_ms now_ms
    || ltb config.max_context_age_ms (saturating_sub now_ms c.issued_at_ms)

-- The bounds of a cooperative proposal.
unfoldable pub is_out_of_bounds : CapabilityGateConfig → ℕ → ℕ → ℕ → Bool
is_out_of_bounds config participants ttl effort =
    participants == 0
    || ltb config.max_proposal_participants participants
    || ttl == 0
    || ltb config.max_proposal_ttl_ms ttl
    || effort == 0
    || ltb config.max_proposal_effort_units effort

-- The `match action` of `authorize`: the capability and the action's authority ceiling.
unfoldable pub admit_action :
    CapabilityGate
    → RequestedAction
    → Result PolicyDropReason (AuthorizedCapability × AuthorityLevel)
unfolding is_out_of_bounds
admit_action g RequestedAction.observe = ok (AuthorizedCapability.observe, observe_only)
admit_action g RequestedAction.state_sync = ok (AuthorizedCapability.state_sync, observe_only)
admit_action g RequestedAction.snapshot_request =
    ok (AuthorizedCapability.snapshot_request, observe_only)
admit_action g RequestedAction.nonbinding_advisory =
    ok (AuthorizedCapability.nonbinding_advisory, mission_coordination)
admit_action g (RequestedAction.cooperative_task_proposal id participants ttl effort) = do
  reject_if (not (is_manifest_approved g id)) manifest_not_approved
  reject_if (is_out_of_bounds g.config participants ttl effort) proposal_out_of_bounds
  ok (AuthorizedCapability.cooperative_task_proposal, mission_coordination)
admit_action g (RequestedAction.unknown _) = err unknown_action
admit_action g _ = err forbidden_action

unfoldable pub authorize :
    CapabilityGate
    → ℕ
    → SecurityContext
    → RequestedAction
    → Result PolicyDropReason AuthorizedCapability
authorize g now_ms c action = do
  reject_if (not c.authenticated) unauthenticated
  reject_if (not c.trusted_source) untrusted_source
  reject_if (exceeds c.requested_authority max_authority) excessive_authority
  reject_if (is_stale_context g.config now_ms c) stale_input
  granted ← admit_action g action
  reject_if (exceeds c.requested_authority granted.1) excessive_authority
  ok granted.0
