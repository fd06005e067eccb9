-- ===== src/Security/Geofence.antt =====
-- src/security/geofence.rs: a polygon with a band of altitudes and two margins. `D` stands for
-- `f64`; an index into the boundary and the one before it are the vertex and its predecessor.
use ruv_drone.Base.{
  ℕ, List, [], ◌∷◌, Option, none, some, Bool, true, false, not, ◌&&◌, ◌||◌, ltb, length, last?,
  if◌then◌else◌,
}
use ruv_drone.Base.Float.{Float, Geometry, clamp}
use ruv_drone.Types.{Position3D}
pub mod Margins
mod Tests

pub record Geofence (D : Type 0) : Type 0 where
  pub boundary : List (D × D)
  pub min_altitude_m : D
  pub max_altitude_m : D
  pub hard_margin_m : D
  pub soft_margin_m : D

pub data GeofenceResult (D : Type 0) : Type 0 where
  safe : GeofenceResult D
  soft_warning : (distance_to_boundary_m : D) → GeofenceResult D
  hard_breach : GeofenceResult D

-- `!=` of two tests.
abbrev pub differ : Bool → Bool → Bool
differ true b = not b
differ false b = b

module _ {D : Type 0} ⦃d : Float D⦄ where
  -- The crossing of a ray from a point with the edge between a vertex and the one before it.
  abbrev pub crosses : D → D → D × D → D × D → Bool
  crosses x y (xj, yj) (xi, yi) =
      differ (d.lt y yi) (d.lt y yj)
      && d.lt x (d.add (d.div (d.mul (d.sub xj xi) (d.sub y yi)) (d.sub yj yi)) xi)

  -- The loop over the vertices, with the vertex before and the parity so far.
  abbrev pub parity_from : D → D → D × D → Bool → List (D × D) → Bool
  parity_from x y previous inside [] = inside
  parity_from x y previous inside (vertex ∷ rest) =
      parity_from x y vertex (if crosses x y previous vertex then not inside else inside) rest

  abbrev pub parity_of : D → D → Option (D × D) → List (D × D) → Bool
  parity_of x y none boundary = false
  parity_of x y (some last) boundary = parity_from x y last false boundary

  unfoldable pub point_in_polygon : Geofence D → D → D → Bool
  point_in_polygon fence x y =
      if ltb (length fence.boundary) 3
      then false
      else parity_of x y (last? fence.boundary) fence.boundary

module _ {D : Type 0} ⦃d : Float D⦄ ⦃g : Geometry D⦄ where
  abbrev pub distance_between : D → D → D → D → D
  distance_between px py cx cy = g.sqrt (d.add (g.powi (d.sub px cx) 2) (g.powi (d.sub py cy) 2))

  unfoldable pub point_to_segment_dist : D → D → D → D → D → D → D
  point_to_segment_dist px py ax ay bx by =
      let dx = d.sub bx ax in
      let dy = d.sub by ay in
      let len_sq = d.add (d.mul dx dx) (d.mul dy dy) in
      if d.lt len_sq (d.decimal 1 12)
      then distance_between px py ax ay
      else (let ratio = d.div (d.add (d.mul (d.sub px ax) dx) (d.mul (d.sub py ay) dy)) len_sq in
          let t = clamp ratio (d.decimal 0 1) (d.decimal 10 1) in
          distance_between px py (d.add ax (d.mul t dx)) (d.add ay (d.mul t dy)))

  abbrev pub edge_dist : D → D → D × D → D × D → D
  edge_dist x y (ax, ay) (bx, by) = point_to_segment_dist x y ax ay bx by

  -- The loop over the vertices, with the vertex before and the least distance so far.
  abbrev pub least_from : D → D → D × D → D → List (D × D) → D
  least_from x y previous min_dist [] = min_dist
  least_from x y previous min_dist (vertex ∷ rest) =
      let dist = edge_dist x y previous vertex in
      least_from x y vertex (if d.lt dist min_dist then dist else min_dist) rest

  abbrev pub least_of : D → D → Option (D × D) → List (D × D) → D
  least_of x y none boundary = g.infinity
  least_of x y (some last) boundary = least_from x y last g.infinity boundary

  unfoldable pub distance_to_boundary : Geofence D → D → D → D
  distance_to_boundary fence x y = least_of x y (last? fence.boundary) fence.boundary

  abbrev pub by_distance : Geofence D → D → GeofenceResult D
  by_distance fence dist =
      if d.le dist fence.hard_margin_m
      then hard_breach
      else if d.le dist fence.soft_margin_m
      then soft_warning dist
      else safe

  abbrev pub is_not_finite : Position3D D → Bool
  is_not_finite pos = not (d.is_finite pos.x) || not (d.is_finite pos.y) || not (d.is_finite pos.z)

  abbrev pub is_out_of_band : Geofence D → D → Bool
  is_out_of_band fence altitude_m =
      d.lt altitude_m fence.min_altitude_m || d.lt fence.max_altitude_m altitude_m

  unfoldable pub check : Geofence D → Position3D D → GeofenceResult D
  check fence pos =
      let inside = point_in_polygon fence pos.x pos.y in
      let dist = distance_to_boundary fence pos.x pos.y in
      if is_not_finite pos
      then hard_breach
      else if is_out_of_band fence (d.neg pos.z)
      then hard_breach
      else if not inside
      then hard_breach
      else by_distance fence dist
