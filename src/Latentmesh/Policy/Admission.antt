-- ===== src/Latentmesh/Policy/Admission.antt =====
-- What the capability gate of src/latentmesh/policy.rs admits, and what it can never admit.
use ruv_drone.Base.{
  ℕ, ◌+◌, ◌≤◌, ◌<◌, ◌≡◌, ◌↔◌, ◌≢◌, true, false, not, ◌==◌, if◌then◌else◌, ok, err, arith, ◌>>=◌,
  ◌>>◌, reject_if, inl, inr, Result-cases, nat_key, saturating_add,
}
use ruv_drone.Base.TreeMap.Laws.{get-insert, get-remove}
use ruv_drone.Latentmesh.Policy.Gate.{
  AuthorityLevel, AuthorizedCapability, CapabilityGate, RequestedAction, SecurityContext,
  admit_action, approve_manifest, authorize, excessive_authority, exceeds, forbidden_action,
  is_manifest_approved, is_stale_context, mission_coordination, observe_only, rank, revoke_manifest,
}

-- A context that is neither from the future, nor inverted, nor expired, nor too old.
pub record IsFresh (g : CapabilityGate) (now_ms : ℕ) (c : SecurityContext) : Type 0 where
  pub not_future : c.issued_at_ms ≤ saturating_add now_ms g.config.max_clock_skew_ms
  pub not_inverted : c.issued_at_ms ≤ c.expires_at_ms
  pub not_expired : now_ms ≤ c.expires_at_ms
  pub not_old : now_ms ≤ c.issued_at_ms + g.config.max_context_age_ms

-- A fresh context of an authenticated, trusted source below flight authority.
pub record IsTrusted (g : CapabilityGate) (now_ms : ℕ) (c : SecurityContext) : Type 0 where
  pub is_authenticated : c.authenticated ≡ true
  pub is_trusted_source : c.trusted_source ≡ true
  pub below_flight : rank c.requested_authority ≤ 1
  pub fresh : IsFresh g now_ms c

-- A proposal within all three of the configured bounds, each at least one.
pub record IsBounded (g : CapabilityGate) (participants ttl effort : ℕ) : Type 0 where
  pub some_participant : 0 < participants
  pub few_participants : participants ≤ g.config.max_proposal_participants
  pub some_ttl : 0 < ttl
  pub short_ttl : ttl ≤ g.config.max_proposal_ttl_ms
  pub some_effort : 0 < effort
  pub small_effort : effort ≤ g.config.max_proposal_effort_units

-- The five admissible actions, each with its capability and its authority ceiling.
abbrev pub Grants :
    CapabilityGate → RequestedAction → AuthorizedCapability → AuthorityLevel → Type 0
Grants g RequestedAction.observe capability top =
    (capability ≡ AuthorizedCapability.observe) × (top ≡ observe_only)
Grants g RequestedAction.state_sync capability top =
    (capability ≡ AuthorizedCapability.state_sync) × (top ≡ observe_only)
Grants g RequestedAction.snapshot_request capability top =
    (capability ≡ AuthorizedCapability.snapshot_request) × (top ≡ observe_only)
Grants g RequestedAction.nonbinding_advisory capability top =
    (capability ≡ AuthorizedCapability.nonbinding_advisory) × (top ≡ mission_coordination)
Grants g (RequestedAction.cooperative_task_proposal id participants ttl effort) capability top =
    (capability ≡ AuthorizedCapability.cooperative_task_proposal)
    × (top ≡ mission_coordination)
    × (is_manifest_approved g id ≡ true)
    × IsBounded g participants ttl effort
Grants g _ capability top = ⊥

-- The eleven actions that would reach an actuator, a setpoint or a safety override.
abbrev pub IsForbidden : RequestedAction → Type 0
IsForbidden RequestedAction.observe = ⊥
IsForbidden RequestedAction.state_sync = ⊥
IsForbidden RequestedAction.snapshot_request = ⊥
IsForbidden RequestedAction.nonbinding_advisory = ⊥
IsForbidden (RequestedAction.cooperative_task_proposal id participants ttl effort) = ⊥
IsForbidden (RequestedAction.unknown code) = ⊥
IsForbidden _ = Unit

admit_action-Grants :
    (g : CapabilityGate) (a : RequestedAction) (capability : AuthorizedCapability)
    (top : AuthorityLevel)
    → admit_action g a ≡ ok (capability, top)
    → Grants g a capability top
unfolding admit_action
admit_action-Grants g RequestedAction.observe capability top h = ground arith
admit_action-Grants g _ capability top h = ground arith

Grants-admit_action :
    (g : CapabilityGate) (a : RequestedAction) (capability : AuthorizedCapability)
    (top : AuthorityLevel)
    → Grants g a capability top
    → admit_action g a ≡ ok (capability, top)
unfolding admit_action
Grants-admit_action g RequestedAction.observe capability top h = ground arith
Grants-admit_action g _ capability top h = ground arith

is_stale_context-IsFresh :
    (g : CapabilityGate) (now_ms : ℕ) (c : SecurityContext)
    → is_stale_context g.config now_ms c ≡ false
    → IsFresh g now_ms c
unfolding is_stale_context
is_stale_context-IsFresh g now_ms c h = ground arith

IsFresh-is_stale_context :
    (g : CapabilityGate) (now_ms : ℕ) (c : SecurityContext)
    → IsFresh g now_ms c
    → is_stale_context g.config now_ms c ≡ false
unfolding is_stale_context
IsFresh-is_stale_context g now_ms c h = ground arith

-- A trusted context leaves the decision to the action and its ceiling.
authorize_of_IsTrusted :
    (g : CapabilityGate) (now_ms : ℕ) (c : SecurityContext) (a : RequestedAction)
    → IsTrusted g now_ms c
    → authorize g now_ms c a ≡ (
        admit_action g a >>= λ granted.
        reject_if (exceeds c.requested_authority granted.1) excessive_authority >> ok granted.0)
unfolding authorize
authorize_of_IsTrusted g now_ms c a t = ground (arith, IsFresh-is_stale_context g now_ms c t.fresh)

authorize-IsTrusted :
    (g : CapabilityGate) (now_ms : ℕ) (c : SecurityContext) (a : RequestedAction)
    (capability : AuthorizedCapability)
    → authorize g now_ms c a ≡ ok capability
    → IsTrusted g now_ms c
unfolding authorize
authorize-IsTrusted g now_ms c a capability h = ground (arith, is_stale_context-IsFresh g now_ms c)

authorize_inv :
    (g : CapabilityGate) (now_ms : ℕ) (c : SecurityContext) (a : RequestedAction)
    (capability : AuthorizedCapability)
    → authorize g now_ms c a ≡ ok capability
    → (top : AuthorityLevel) × (admit_action g a ≡ ok (capability, top))
      × (rank c.requested_authority ≤ rank top)
authorize_inv g now_ms c a capability h =
    let t = authorize-IsTrusted g now_ms c a capability h in
    elim (Result-cases (admit_action g a)) [
      | inl (granted, e) ↦ (
        granted.1,
        ground (arith, authorize_of_IsTrusted g now_ms c a t),
        ground (arith, authorize_of_IsTrusted g now_ms c a t),
      )
      | inr (reason, e) ↦ absurd (ground (arith, authorize_of_IsTrusted g now_ms c a t))
    ]

-- Admission is exactly trust and a grant whose ceiling covers the requested authority: nothing
-- else is admitted, and all of this is.
pub authorize_iff :
    (g : CapabilityGate) (now_ms : ℕ) (c : SecurityContext) (a : RequestedAction)
    (capability : AuthorizedCapability)
    → (authorize g now_ms c a ≡ ok capability) ↔ (
        IsTrusted g now_ms c
        × ((top : AuthorityLevel) × Grants g a capability top
            × (rank c.requested_authority ≤ rank top)))
authorize_iff g now_ms c a capability = (
  λ h.
      let (top, e, le) = authorize_inv g now_ms c a capability h in
      (
        authorize-IsTrusted g now_ms c a capability h,
        (top, admit_action-Grants g a capability top e, le),
      ),
  λ h.
      let (t, (top, gr, le)) = h in
      rw (authorize_of_IsTrusted g now_ms c a t, Grants-admit_action g a capability top gr)
        (ground arith),
)

admit_action-IsForbidden :
    (g : CapabilityGate) (a : RequestedAction)
    → IsForbidden a
    → admit_action g a ≡ err forbidden_action
unfolding admit_action
admit_action-IsForbidden g RequestedAction.observe h = absurd h
admit_action-IsForbidden g _ h = ground arith

-- A forbidden action of a trusted sender is refused as forbidden, whatever it asks for and
-- whatever manifests are approved; from no sender at all is it admitted.
pub authorize-IsForbidden :
    (g : CapabilityGate) (now_ms : ℕ) (c : SecurityContext) (a : RequestedAction)
    → IsForbidden a
    → (IsTrusted g now_ms c → authorize g now_ms c a ≡ err forbidden_action)
      × ((capability : AuthorizedCapability) → authorize g now_ms c a ≢ ok capability)
authorize-IsForbidden g now_ms c a h = (
  λ t. rw (authorize_of_IsTrusted g now_ms c a t, admit_action-IsForbidden g a h),
  λ capability e.
      let (top, f, _) = authorize_inv g now_ms c a capability e in
      cc (f, admit_action-IsForbidden g a h),
)

-- Approval and revocation change the standing of the one manifest only, and manifest zero is
-- never approved.
is_manifest_approved-update :
    (g : CapabilityGate) (id j : ℕ)
    → (is_manifest_approved (approve_manifest g id).0 j
        ≡ (if j == id then not (id == 0) else is_manifest_approved g j))
      × (is_manifest_approved (revoke_manifest g id).0 j
          ≡ (if j == id then false else is_manifest_approved g j))
unfolding is_manifest_approved approve_manifest revoke_manifest
is_manifest_approved-update g id j = (
  ground (arith, get-insert j id tt g.approved_manifest_ids),
  ground (arith, get-remove j id g.approved_manifest_ids),
)
