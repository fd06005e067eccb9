-- ===== src/Orchestrator/Safety.antt =====
-- How safety comes first in a step of src/orchestrator/mod.rs.
use ruv_drone.Base.{ℕ, ◌≡◌, refl, ap, true, false, [], ◌∷◌, Any, inl, inr, Bool-cases, nat_key}
use ruv_drone.Base.Float.{Float, Geometry, Widening}
use ruv_drone.Base.TreeMap.{TreeMap}
use ruv_drone.Types.{DroneState, Position3D, distance_to}
use ruv_drone.Failsafe.{emergency_diverge, tick}
use ruv_drone.Failsafe.Decisions.{tick_priority}
use ruv_drone.Latentmesh.Air.{Air}
use ruv_drone.Latentmesh.Node.Endpoint.{VerifiedAdvisory}
use ruv_drone.Orchestrator.Node.{SwarmOrchestrator}
use ruv_drone.Orchestrator.Step.{
  StepInputs, begin_step, fly_mission, nearest_of, nearest_peer_distance, safety_inputs, step,
  takes_over,
}

module _ {a : Air} {D B : Type 0} where
  -- Nothing of the mission moves: the drone, the grid, the phase, the peers and the tally of cells.
  pub record HoldsMission (o p : SwarmOrchestrator a D B) : Type 0 where
    pub state : p.state ≡ o.state
    pub grid : p.probability_grid ≡ o.probability_grid
    pub coverage : p.coverage ≡ o.coverage
    pub peers : p.peer_states ≡ o.peer_states
    pub cells : p.stats.cells_covered ≡ o.stats.cells_covered
    pub advisories : p.latentmesh_advisories ≡ o.latentmesh_advisories

module _ {D B : Type 0} ⦃d : Float D⦄ ⦃g : Geometry D⦄ where
  nearest_of_unreadable :
      (here : Position3D D) (nearest : D) (peers : TreeMap ℕ (DroneState D B))
      → d.is_finite g.nan ≡ false
      → Any (λ e. d.is_finite (distance_to here e.1.position) ≡ false) peers
      → d.is_finite (nearest_of here nearest peers) ≡ false
  nearest_of_unreadable here nearest [] n (h) = absurd h
  nearest_of_unreadable here nearest ((id, peer) ∷ peers) n (inl h) = rw (nearest_of, h) n
  nearest_of_unreadable here nearest ((id, peer) ∷ peers) n (inr h) =
      elim (Bool-cases (d.is_finite (distance_to here peer.position))) [
        | inl e ↦
            rw (nearest_of, e)
              (nearest_of_unreadable here (d.min nearest (distance_to here peer.position)) peers n
                h)
        | inr e ↦ rw (nearest_of, e) n
      ]

module _ {a : Air} {D B : Type 0} ⦃d : Float D⦄ ⦃b : Float B⦄ ⦃w : Widening B D⦄
    ⦃g : Geometry D⦄ where
  -- A peer whose distance is not a finite number.
  abbrev pub IsUnreadable : SwarmOrchestrator a D B → Type 0
  IsUnreadable o =
      Any (λ e. d.is_finite (distance_to o.state.position e.1.position) ≡ false) o.peer_states

  -- Where the fail-safe machine takes over, the step returns its state and leaves the mission alone.
  step-HoldsMission :
      (o : SwarmOrchestrator a D B) (i : StepInputs D B)
      → takes_over (step o i).1 ≡ true
      → HoldsMission o (step o i).0
  unfolding step
  step-HoldsMission o i h = rw (h) (record {
    state = refl;
    grid = refl;
    coverage = refl;
    peers = refl;
    cells = refl;
    advisories = refl;
  })

  -- A peer at a distance that cannot be read, whatever the other peers, the link, the battery and the
  -- payload say, makes the step answer with divergence and hold the mission.
  pub step-IsUnreadable :
      (o : SwarmOrchestrator a D B) (i : StepInputs D B)
      → d.is_finite g.nan ≡ false
      → IsUnreadable o
      → ((step o i).1 ≡ emergency_diverge) × HoldsMission o (step o i).0
  unfolding step nearest_peer_distance
  step-IsUnreadable o i n h =
      let e =
        ((tick_priority o.failsafe (safety_inputs (begin_step o i.dt_secs) i)).0
          (inl (nearest_of_unreadable o.state.position g.max_value o.peer_states n h))).0 in
      (e, step-HoldsMission o i (ap takes_over e))

  -- The step is the same whatever advisories are held, and it leaves them alone.
  pub step-advisories :
      (o : SwarmOrchestrator a D B) (i : StepInputs D B) (m : TreeMap ℕ (VerifiedAdvisory a D B))
      → step (record o { latentmesh_advisories = m }) i
        ≡ (record ((step o i).0) { latentmesh_advisories = m }, (step o i).1)
  unfolding step fly_mission nearest_peer_distance
  step-advisories o i m =
      elim (Bool-cases
        (takes_over (tick o.failsafe (safety_inputs (begin_step o i.dt_secs) i)).state)) [
          | inl e ↦ rw (e) refl
          | inr e ↦ rw (e) refl
        ]
