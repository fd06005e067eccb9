-- ===== src/Latentmesh/Node/Observations.antt =====
-- What an observation of src/latentmesh/node.rs is, and what it can be used for.
use ruv_drone.Base.{
  ℕ, ◌+◌, ◌≤◌, ◌≡◌, ap, subst, sym, ◌∙◌, List, inl, inr, Option, none, some, Result, ok, err, min,
  arith, saturating_add,
}
use ruv_drone.Base.Float.{Float}
use ruv_drone.Latentmesh.Air.{Air}
use ruv_drone.Latentmesh.Policy.Gate.{verified_observe_only}
use ruv_drone.Latentmesh.Policy.Admission.{IsForbidden, authorize-IsForbidden}
use ruv_drone.Latentmesh.Policy.Traffic.{DeliveryPlan, LinkSnapshot, MessageIntent, send}
use ruv_drone.Latentmesh.Policy.Plans.{evaluate-IsJustified}
use ruv_drone.Latentmesh.Protocol.Types.{
  AdvisoryPeerSnapshot, ProtocolError, ReceivedAdvisorySnapshot,
}
use ruv_drone.Latentmesh.Protocol.Receive
use ruv_drone.Latentmesh.Protocol.Receive.{Outcome}
use ruv_drone.Latentmesh.Protocol.Reception.{Receives, ingest_frame_bytes-Receives}
use ruv_drone.Latentmesh.Protocol.Transmit.{AirTx}
use ruv_drone.Latentmesh.Node.Endpoint.{
  LatentMeshNode, VerifiedAdvisory, context_of, evaluate_delivery, ingest_frame_bytes, settle,
}

-- A time before the end of a window is within both of the spans that bound it.
within_spans :
    (now_ms start_ms p q end_ms : ℕ)
    → now_ms ≤ end_ms
    → end_ms ≡ saturating_add start_ms (min p q)
    → (now_ms ≤ start_ms + p) × (now_ms ≤ start_ms + q)
within_spans now_ms start_ms p q end_ms h e = ground arith

module _ (a : Air) (x : AirTx a) {S D B : Type 0}
    (decode : a.Critical → Result S (AdvisoryPeerSnapshot D B)) where
  -- A snapshot that the receiver admitted, with an observe-only context of the node's own making.
  pub record IsVerified (n : LatentMeshNode a S D B) (source now_ms : ℕ) (bytes : List ℕ)
      (v : VerifiedAdvisory a D B) : Type 0 where
    pub receives :
        Receives a decode n.receiver source now_ms
          (Receive.ingest_frame_bytes a decode n.receiver source now_ms bytes)
    pub received : receives.received ≡ v.received
    pub context : v.security ≡ context_of a n now_ms

  settle-some :
      (n : LatentMeshNode a S D B) (now_ms : ℕ) (o : Outcome a decode) (v : VerifiedAdvisory a D B)
      → (settle a x n now_ms o).1 ≡ ok (some v)
      → (o.1 ≡ ok (some v.received)) × (v.security ≡ context_of a n now_ms)
  unfolding settle
  settle-some n now_ms (r, ok (some received)) v h = ground arith
  settle-some n now_ms (r, ok none) v h = ground arith
  settle-some n now_ms (r, err e) v h = ground arith

  some-injective :
      {p q : ReceivedAdvisorySnapshot a D B}
      → ◌≡◌ {A = Result (ProtocolError a.AirError S) (Option (ReceivedAdvisorySnapshot a D B))}
          (ok (some p))
          (ok (some q))
      → p ≡ q
  some-injective h = ground arith

  -- An observation that a node returns is a snapshot that its receiver admitted, and its context is
  -- observe-only, issued at the reception, and valid for the shorter of the advisory's time to live
  -- and the greatest age of a context.
  pub ingest_frame_bytes-IsVerified :
      (n : LatentMeshNode a S D B) (source now_ms : ℕ) (bytes : List ℕ) (v : VerifiedAdvisory a D B)
      → (ingest_frame_bytes a x decode n source now_ms bytes).1 ≡ ok (some v)
      → IsVerified n source now_ms bytes v
  unfolding ingest_frame_bytes
  ingest_frame_bytes-IsVerified n source now_ms bytes v h =
      let o = Receive.ingest_frame_bytes a decode n.receiver source now_ms bytes in
      let (e, c) = settle-some n now_ms o v h in
      elim (ingest_frame_bytes-Receives a decode n.receiver source now_ms bytes) [
        | inl k ↦ absurd (k.nothing v.received e)
        | inr r ↦ record {
          receives = r;
          received = some-injective (sym r.outcome ∙ e);
          context = c;
        }
      ]

module _ (a : Air) (x : AirTx a) {S D B : Type 0} ⦃f : Float D⦄
    (decode : a.Critical → Result S (AdvisoryPeerSnapshot D B)) where
  -- Whatever an observation is used for, the policy of a node sends nothing on the strength of it
  -- before its reception, beyond the clock skew, or after its time to live or the greatest age of a
  -- context, and never for a forbidden action.
  pub evaluate_delivery-observed :
      (n m : LatentMeshNode a S D B) (source received_ms now_ms : ℕ) (bytes : List ℕ)
      (v : VerifiedAdvisory a D B) (link : LinkSnapshot D) (i : MessageIntent D)
      (plan : DeliveryPlan D)
      → (ingest_frame_bytes a x decode n source received_ms bytes).1 ≡ ok (some v)
      → i.security ≡ v.security
      → (evaluate_delivery a m now_ms link i).1 ≡ send plan
      → (received_ms ≤ saturating_add now_ms m.policy.gate.config.max_clock_skew_ms)
        × (now_ms ≤ received_ms + n.receiver.config.advisory_ttl_ms)
        × (now_ms ≤ received_ms + n.policy.config.capability.max_context_age_ms)
        × ¬ IsForbidden i.action
  unfolding evaluate_delivery context_of verified_observe_only
  evaluate_delivery-observed n m source received_ms now_ms bytes v link i plan h same sent =
      let c = (ingest_frame_bytes-IsVerified a x decode n source received_ms bytes v h).context in
      let j = evaluate-IsJustified m.policy now_ms link i plan sent in
      let spans =
        within_spans now_ms received_ms n.receiver.config.advisory_ttl_ms
          n.policy.config.capability.max_context_age_ms i.security.expires_at_ms
          j.trusted.fresh.not_expired (ap (λ s. s.expires_at_ms) (same ∙ c)) in
      (
        subst (λ t. t ≤ saturating_add now_ms m.policy.gate.config.max_clock_skew_ms)
            (ap (λ s. s.issued_at_ms) (same ∙ c)) j.trusted.fresh.not_future,
        spans.0,
        spans.1,
        λ bad.
            (authorize-IsForbidden m.policy.gate now_ms i.security i.action bad).1 plan.capability
              j.authorized,
      )
