-- ===== src/Latentmesh/Node/Telemetry.antt =====
-- The endpoint of src/latentmesh/node.rs with the decoder of src/latentmesh/state.rs.
use ruv_drone.Base.{ℕ, ◌≡◌, ◌∙◌, ap, sym, List, ok, some}
use ruv_drone.Base.Float.{Float, Widening}
use ruv_drone.Latentmesh.Air.{Air}
use ruv_drone.Latentmesh.Protocol.Transmit.{AirTx}
use ruv_drone.Latentmesh.State.Symbols.{Rounding, Symbols}
use ruv_drone.Latentmesh.State.Schema.{StateError}
use ruv_drone.Latentmesh.State.Codec.{from_critical_state}
use ruv_drone.Latentmesh.State.Accepted.{IsAccepted, from_critical_state-IsAccepted}
use ruv_drone.Latentmesh.Node.Endpoint.{LatentMeshNode, VerifiedAdvisory, ingest_frame_bytes}
use ruv_drone.Latentmesh.Node.Observations.{ingest_frame_bytes-IsVerified}

module _ (a : Air) (x : AirTx a) {E D B : Type 0} (y : Symbols E a.Critical) ⦃f : Float D⦄
    ⦃r : Rounding D⦄ ⦃w : Widening B D⦄ where
  -- An observation that a node returns is of the expected source, and its telemetry is spelled by a
  -- critical state of schema version 1 with exactly the fields of the schema, every number finite
  -- and in its range.
  pub ingest_frame_bytes-IsAccepted :
      (n : LatentMeshNode a (StateError E) D B) (source now_ms : ℕ) (bytes : List ℕ)
      (v : VerifiedAdvisory a D B)
      → (ingest_frame_bytes a x (from_critical_state y) n source now_ms bytes).1 ≡ ok (some v)
      → (v.received.snapshot.drone.id ≡ source)
        × ((c : a.Critical) × IsAccepted y c v.received.snapshot)
  ingest_frame_bytes-IsAccepted n source now_ms bytes v h =
      let o = ingest_frame_bytes-IsVerified a x (from_critical_state y) n source now_ms bytes v h in
      let k = o.receives.admission in
      (
        ap (λ q. q.snapshot.drone.id) (sym o.received) ∙ k.own,
        (
          k.critical,
          from_critical_state-IsAccepted y k.critical v.received.snapshot
              (k.decoded ∙ ap (λ q. ok q.snapshot) o.received),
        ),
      )
