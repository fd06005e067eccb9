-- ===== src/Security/Geofence/Tests.antt =====
-- A square fence of src/security/geofence.rs. The numbers of these tests have no negative ones, so
-- the positions are on the ground.
use ruv_drone.Base.{◌≡◌, refl, none, some, [], ◌∷◌}
use ruv_drone.Base.Fixed.{Fixed, Fixed-IsOrdered, fixed_float, fixed_geometry}
use ruv_drone.Types.{Position3D}
use ruv_drone.Security.Geofence.{
  Geofence, check, distance_to_boundary, hard_breach, point_in_polygon, point_to_segment_dist, safe,
  soft_warning,
}
use ruv_drone.Security.Geofence.Margins.{Means, check-Means}

abbrev hundred : Fixed
hundred = some 100_000_000

abbrev nought : Fixed
nought = some 0

abbrev fence : Geofence Fixed
fence = record {
  boundary = (nought, nought) ∷ (nought, hundred) ∷ (hundred, hundred) ∷ (hundred, nought) ∷ [];
  min_altitude_m = nought;
  max_altitude_m = some 120_000_000;
  hard_margin_m = some 100_000_000;
  soft_margin_m = some 625_000_000;
}

-- A position at distances from the left edge whose squares are 2500, 225 and 25.
abbrev at : Fixed → Position3D Fixed
at x = record { x = x; y = some 50_000_000; z = nought }

center_is_safe : check fence (at (some 50_000_000)) ≡ safe
unfolding check distance_to_boundary point_in_polygon point_to_segment_dist
center_is_safe = refl

near_is_warned : check fence (at (some 15_000_000)) ≡ soft_warning (some 225_000_000)
unfolding check distance_to_boundary point_in_polygon point_to_segment_dist
near_is_warned = refl

nearer_is_breach : check fence (at (some 5_000_000)) ≡ hard_breach
unfolding check distance_to_boundary point_in_polygon point_to_segment_dist
nearer_is_breach = refl

outside_is_breach : check fence (at (some 150_000_000)) ≡ hard_breach
unfolding check distance_to_boundary point_in_polygon point_to_segment_dist
outside_is_breach = refl

nan_is_breach : check fence (at none) ≡ hard_breach
unfolding check distance_to_boundary point_in_polygon point_to_segment_dist
nan_is_breach = refl

-- A vertex that is not a number takes two edges out of the fence, and the position is safe.
abbrev broken : Geofence Fixed
broken = record fence { boundary = (hundred, hundred) ∷ (hundred, nought) ∷ (none, none) ∷ [] }

broken_is_safe : check broken (at (some 50_000_000)) ≡ safe
unfolding check distance_to_boundary point_in_polygon point_to_segment_dist
broken_is_safe = refl

check-Means_example : Means fence (at (some 15_000_000)) (check fence (at (some 15_000_000)))
check-Means_example = check-Means Fixed-IsOrdered fence (at (some 15_000_000)) refl
