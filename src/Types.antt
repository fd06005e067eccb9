-- ===== src/Types.antt =====
-- src/types.rs: the records that the subsystems exchange. `D` stands for `f64`, `B` for `f32`;
-- identifiers are the numbers that they wrap.
use ruv_drone.Base.{ℕ, List, Option}
use ruv_drone.Base.Float.{Float, Geometry}

pub record Position3D (D : Type 0) : Type 0 where
  pub x : D
  pub y : D
  pub z : D

pub record Velocity3D (D : Type 0) : Type 0 where
  pub vx : D
  pub vy : D
  pub vz : D

pub record DroneState (D B : Type 0) : Type 0 where
  pub id : ℕ
  pub position : Position3D D
  pub velocity : Velocity3D D
  pub heading_rad : D
  pub altitude_agl_m : D
  pub battery_pct : B
  pub link_quality : B
  pub timestamp_ms : ℕ

pub data TaskKind (D : Type 0) : Type 0 where
  cover_cell : (grid_x grid_y : ℕ) → TaskKind D
  investigate_victim : (estimated_position : Position3D D) → TaskKind D
  triangulate : (collaborators : List ℕ) → TaskKind D
  return_to_home hover_relay land_emergency : TaskKind D

pub record SwarmTask (D B : Type 0) : Type 0 where
  pub id : ℕ
  pub kind : TaskKind D
  pub priority : B
  pub target : Position3D D
  pub deadline_ms : Option ℕ
  pub assigned_to : Option ℕ

pub record CsiDetection (D B : Type 0) : Type 0 where
  pub drone_id : ℕ
  pub confidence : B
  pub victim_position : Option (Position3D D)
  pub timestamp_ms : ℕ

pub record GridCell (B : Type 0) : Type 0 where
  pub x_idx : ℕ
  pub y_idx : ℕ
  pub victim_probability : B
  pub pheromone : B
  pub last_scanned_ms : ℕ

-- `Position3D::distance_to` and `Velocity3D::default`.
module _ {D : Type 0} ⦃f : Float D⦄ where
  unfoldable pub distance_to : ⦃g : Geometry D⦄ → Position3D D → Position3D D → D
  distance_to ⦃g⦄ p q =
      let dx = f.sub p.x q.x in
      let dy = f.sub p.y q.y in
      let dz = f.sub p.z q.z in g.sqrt (f.add (f.add (f.mul dx dx) (f.mul dy dy)) (f.mul dz dz))

  abbrev pub at_rest : Velocity3D D
  at_rest = record { vx = f.decimal 0 0; vy = f.decimal 0 0; vz = f.decimal 0 0 }
