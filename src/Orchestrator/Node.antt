-- ===== src/Orchestrator/Node.antt =====
-- The coordinator's state in src/orchestrator/mod.rs and the operations that receive. Of the
-- configuration it has the values that the operations read; the maps are association lists, `D`
-- stands for `f64` and `B` for `f32`.
use ruv_drone.Base.{
  ℕ, ◌-◌, ◌&&◌, ◌||◌, Bool, true, false, ltb, leb, ◌==◌, if◌then◌else◌, List, [], ◌∷◌, ◌++◌, Option,
  none, some, length, nat_key, select,
}
use ruv_drone.Base.Float.{Float, Geometry}
use ruv_drone.Base.TreeMap
use ruv_drone.Failsafe
use ruv_drone.Planning.Grid.Beliefs
use ruv_drone.Planning.Strategy
use ruv_drone.Base.TreeMap.{TreeMap, get, insert}
use ruv_drone.Types.{CsiDetection, DroneState, Position3D, at_rest}
use ruv_drone.Failsafe.{FailSafeMachine, FailSafeState, nominal}
use ruv_drone.Planning.Grid.{ProbabilityGrid}
use ruv_drone.Planning.Strategy.{CoverageStrategy}
use ruv_drone.Latentmesh.Air.{Air}
use ruv_drone.Latentmesh.Node.Endpoint.{VerifiedAdvisory}

pub record MissionStats (D : Type 0) : Type 0 where
  pub cells_covered : ℕ
  pub victims_confirmed : ℕ
  pub collision_events : ℕ
  pub steps : ℕ
  pub elapsed_secs : D

pub record Settings (D B : Type 0) : Type 0 where
  pub area_width_m : D
  pub area_height_m : D
  pub grid_resolution_m : D
  pub max_speed_ms : D
  pub flight_altitude_m : D
  pub confidence_threshold : B
  pub convergence_threshold : B

pub record SwarmOrchestrator (a : Air) (D B : Type 0) : Type 0 where
  pub node_id : ℕ
  pub config : Settings D B
  pub state : DroneState D B
  pub failsafe : FailSafeMachine D B
  pub coverage : CoverageStrategy B
  pub probability_grid : ProbabilityGrid D B
  pub peer_states : TreeMap ℕ (DroneState D B)
  pub peer_detections : List (CsiDetection D B)
  pub stats : MissionStats D
  pub latentmesh_advisories : TreeMap ℕ (VerifiedAdvisory a D B)

-- A new coordinator, of a drone at a position with a full battery.
module _ {a : Air} {D B : Type 0} ⦃d : Float D⦄ ⦃b : Float B⦄ ⦃g : Geometry D⦄ where
  unfoldable pub new_demo : ℕ → Settings D B → Position3D D → SwarmOrchestrator a D B
  unfolding Failsafe.new Beliefs.new Strategy.new
  new_demo node_id config start_position = record {
    node_id = node_id;
    config = config;
    state = record {
      id = node_id;
      position = start_position;
      velocity = at_rest;
      heading_rad = d.decimal 0 1;
      altitude_agl_m = config.flight_altitude_m;
      battery_pct = b.decimal 1000 1;
      link_quality = b.decimal 10 1;
      timestamp_ms = 0;
    };
    failsafe = Failsafe.new;
    coverage = Strategy.new config.convergence_threshold;
    probability_grid =
        Beliefs.new (g.to_u32 (d.ceil (d.div config.area_width_m config.grid_resolution_m)))
          (g.to_u32 (d.ceil (d.div config.area_height_m config.grid_resolution_m)))
          config.grid_resolution_m;
    peer_states = TreeMap.empty;
    peer_detections = [];
    stats = record {
      cells_covered = 0;
      victims_confirmed = 0;
      collision_events = 0;
      steps = 0;
      elapsed_secs = d.decimal 0 0;
    };
    latentmesh_advisories = TreeMap.empty;
  }

-- `retain` over a map, and its length.
abbrev pub retain {κ} : {V : Type κ} → (V → Bool) → TreeMap ℕ V → TreeMap ℕ V
retain p m = select (λ e. p e.1) m

module _ {a : Air} {D B : Type 0} where
  unfoldable pub receive_peer_state :
      SwarmOrchestrator a D B → DroneState D B → SwarmOrchestrator a D B
  receive_peer_state o peer = record o { peer_states = insert peer.id peer o.peer_states }

  unfoldable pub receive_peer_detection :
      SwarmOrchestrator a D B → CsiDetection D B → SwarmOrchestrator a D B
  receive_peer_detection o det = record o { peer_detections = o.peer_detections ++ det ∷ [] }

  -- `incoming <= current`, by the epoch and then the logical sequence.
  abbrev pub is_not_newer : VerifiedAdvisory a D B → VerifiedAdvisory a D B → Bool
  is_not_newer incoming current =
      let i = incoming.received.metadata in
      let c = current.received.metadata in
      ltb i.epoch c.epoch || (i.epoch == c.epoch) && leb i.logical_sequence c.logical_sequence

  abbrev pub holds_newer : VerifiedAdvisory a D B → Option (VerifiedAdvisory a D B) → Bool
  holds_newer incoming none = false
  holds_newer incoming (some current) = is_not_newer incoming current

  abbrev pub source_of : VerifiedAdvisory a D B → ℕ
  source_of advisory = advisory.received.snapshot.drone.id

  unfoldable pub receive_latentmesh_advisory :
      SwarmOrchestrator a D B → VerifiedAdvisory a D B → SwarmOrchestrator a D B × Bool
  receive_latentmesh_advisory o advisory =
      if holds_newer advisory (get (source_of advisory) o.latentmesh_advisories)
      then (o, false)
      else (
        record o {
          latentmesh_advisories = insert (source_of advisory) advisory o.latentmesh_advisories;
        },
        true,
      )

  abbrev pub is_current : ℕ → VerifiedAdvisory a D B → Bool
  is_current now_ms advisory = leb now_ms advisory.security.expires_at_ms

  unfoldable pub expire_latentmesh_advisories :
      SwarmOrchestrator a D B → ℕ → SwarmOrchestrator a D B × ℕ
  expire_latentmesh_advisories o now_ms =
      let kept = retain (is_current now_ms) o.latentmesh_advisories in
      (record o { latentmesh_advisories = kept }, length o.latentmesh_advisories - length kept)

abbrev pub is_nominal : FailSafeState → Bool
is_nominal nominal = true
is_nominal _ = false

module _ {a : Air} {D B : Type 0} ⦃b : Float B⦄ where
  abbrev pub reports_fit : B → ℕ → VerifiedAdvisory a D B → Bool
  reports_fit battery_warn_pct now_ms advisory =
      let state = advisory.received.snapshot in
      is_current now_ms advisory
      && b.le battery_warn_pct state.drone.battery_pct
      && b.le (b.decimal 2 1) state.drone.link_quality
      && is_nominal state.failsafe

  abbrev pub is_fit : B → ℕ → Option (VerifiedAdvisory a D B) → Bool
  is_fit battery_warn_pct now_ms none = false
  is_fit battery_warn_pct now_ms (some advisory) = reports_fit battery_warn_pct now_ms advisory

  unfoldable pub latentmesh_peer_is_eligible : SwarmOrchestrator a D B → ℕ → ℕ → Bool
  latentmesh_peer_is_eligible o source now_ms =
      is_fit o.failsafe.battery_warn_pct now_ms (get source o.latentmesh_advisories)
