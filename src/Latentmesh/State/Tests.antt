-- ===== src/Latentmesh/State/Tests.antt =====
-- A state of src/latentmesh/state.rs, encoded and decoded.
use ruv_drone.Base.{ℕ, ◌≡◌, refl, Result, ok, err, [], List, ◌>>◌, arith}
use ruv_drone.Types.{DroneState}
use ruv_drone.Failsafe.{return_to_home}
use ruv_drone.Latentmesh.State.Symbols.{ℤ, negsuc, pos}
use ruv_drone.Latentmesh.State.Exact.{
  Value, exact_float, exact_rounding, exact_widening, listed, listed-IsFieldMap,
}
use ruv_drone.Latentmesh.State.Schema.{failsafe_code}
use ruv_drone.Latentmesh.State.Ranges.{
  validate_bounded, validate_each, validate_domain_ranges, validate_q16,
}
use ruv_drone.Latentmesh.State.Codec.{from_critical_state, set_q16, set_u64, to_critical_state}
use ruv_drone.Latentmesh.State.Fields.{quantised_state}
use ruv_drone.Latentmesh.State.RoundTrip.{from_critical_state-to_critical_state}

-- 2 m north, 1.5 m west, 30 m up, at 80 percent.
abbrev drone : DroneState ℤ ℤ
drone = record {
  id = 7;
  position = record { x = pos 131_072; y = negsuc 98_303; z = negsuc 1_966_079 };
  velocity = record { vx = pos 65_536; vy = pos 0; vz = negsuc 32_767 };
  heading_rad = pos 98_304;
  altitude_agl_m = pos 1_966_080;
  battery_pct = pos 5_242_880;
  link_quality = pos 58_982;
  timestamp_ms = 10_000;
}

abbrev fields : {E : Type 0} → Result E (List (ℕ × Value)) → List (ℕ × Value)
fields (ok c) = c
fields (err e) = []

abbrev encoded : List (ℕ × Value)
unfolding to_critical_state validate_domain_ranges validate_each validate_q16 validate_bounded
    set_u64 set_q16 failsafe_code
encoded = fields (to_critical_state listed drone return_to_home)

to_critical_state_runs : to_critical_state listed drone return_to_home ≡ ok encoded
unfolding to_critical_state validate_domain_ranges validate_each validate_q16 validate_bounded
    set_u64 set_q16 failsafe_code
to_critical_state_runs = refl

from_critical_state-to_critical_state_example : from_critical_state listed encoded ≡ (
    validate_domain_ranges (quantised_state drone)
    >> ok (record { drone = quantised_state drone; failsafe = return_to_home }))
from_critical_state-to_critical_state_example =
    from_critical_state-to_critical_state listed listed-IsFieldMap drone return_to_home encoded
      (ground arith) to_critical_state_runs
