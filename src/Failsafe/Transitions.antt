-- ===== src/Failsafe/Transitions.antt =====
-- The states of src/failsafe/mod.rs that can follow one another.
use ruv_drone.Base.{
  ◌≡◌, ◌≢◌, ◌⊎◌, ◌∙◌, ap, refl, true, false, List, [], ◌∷◌, ◌++◌, Option, none, All, ℕ, arith,
}
use ruv_drone.Base.Float.{Float}
use ruv_drone.Failsafe.{
  FailSafeMachine, FailSafeState, Inputs, nominal, autonomous_hold, low_battery_warn,
  return_to_home, emergency_land, emergency_diverge, controlled_descent, force_land, new, run, tick,
}
use ruv_drone.Failsafe.Decisions.{IsClear, IsHealthy, run_healthy}

-- The edges of the machine. Only a hold and a warning lead back to normal operation.
data Moves : FailSafeState → FailSafeState → Type 0 where
  stay : {s : FailSafeState} → Moves s s
  diverge : {s : FailSafeState} → Moves s emergency_diverge
  go_home : {s : FailSafeState} → Moves s return_to_home
  hold : {s : FailSafeState} → Moves s autonomous_hold
  warn : {s : FailSafeState} → Moves s low_battery_warn
  resume : Moves autonomous_hold nominal
  recharge : Moves low_battery_warn nominal

ruleset edges = (stay, diverge, go_home, hold, warn, resume, recharge)

module _ {D B : Type 0} ⦃d : Float D⦄ ⦃b : Float B⦄ where
  -- Every tick follows an edge of the graph of states above.
  tick-Moves : (m : FailSafeMachine D B) (i : Inputs D B) → Moves m.state (tick m i).state
  unfolding tick
  tick-Moves m i = grind (arith, edges)

  tick-origin :
      (m : FailSafeMachine D B) (i : Inputs D B)
      → ((tick m i).state ≡ nominal
          → (m.state ≡ nominal) ⊎ ((m.state ≡ autonomous_hold) ⊎ (m.state ≡ low_battery_warn)))
        × ((tick m i).state ≡ emergency_land → m.state ≡ emergency_land)
        × ((tick m i).state ≡ controlled_descent → m.state ≡ controlled_descent)
  unfolding tick
  tick-origin m i = ground arith

  run-origin :
      (m : FailSafeMachine D B) (is : List (Inputs D B))
      → ((run m is).state ≡ emergency_land → m.state ≡ emergency_land)
        × ((run m is).state ≡ controlled_descent → m.state ≡ controlled_descent)
  unfolding run
  run-origin m [] = (λ e. e, λ e. e)
  run-origin m (i ∷ is) =
      let (land, descent) = run-origin (tick m i) is in
      let (_, land', descent') = tick-origin m i in (λ e. land' (land e), λ e. descent' (descent e))

  -- From a new machine no sequence of ticks reaches the emergency landing, which only `force_land`
  -- commands, nor the controlled descent, which nothing commands.
  pub run-no_descent :
      (is : List (Inputs D B))
      → ((run new is).state ≢ emergency_land) × ((run new is).state ≢ controlled_descent)
  unfolding new
  run-no_descent is =
      let (land, descent) = run-origin new is in (λ e. cc (land e), λ e. cc (descent e))

  -- The way clear, the link up, and a battery between its two levels.
  abbrev pub IsLow : FailSafeMachine D B → Inputs D B → Type 0
  IsLow m i =
      IsClear m i
      × (i.link_alive ≡ true)
      × (b.is_finite i.drone.battery_pct ≡ true)
      × (b.le i.drone.battery_pct m.battery_rth_pct ≡ false)
      × (b.le i.drone.battery_pct m.battery_warn_pct ≡ true)

  -- The machine after healthy ticks, however many: landing, with its thresholds as they were.
  abbrev Lands : FailSafeMachine D B → FailSafeMachine D B → Type 0
  Lands m n = (t : Option ℕ) × (n ≡ (record m { state = emergency_land; link_loss_start = t }))

  land-run :
      (m : FailSafeMachine D B) (is : List (Inputs D B))
      → All (IsHealthy m) is
      → Lands m (run (force_land m) is)
  unfolding force_land run
  land-run m [] h = (m.link_loss_start, refl)
  land-run m (i ∷ is) h = (none, run_healthy (force_land m) i is h)

  run-append :
      (m : FailSafeMachine D B) (is js : List (Inputs D B)) → run m (is ++ js) ≡ run (run m is) js
  unfolding run
  run-append m [] js = refl
  run-append m (i ∷ is) js = run-append (tick m i) is js

  land-recovers :
      (m : FailSafeMachine D B) (t : Option ℕ) (low high : Inputs D B)
      → IsLow m low
      → IsHealthy m high
      → (run (record m { state = emergency_land; link_loss_start = t }) (low ∷ high ∷ [])).state
        ≡ nominal
  unfolding run tick
  land-recovers m t low high l h = ground arith

  -- A forced landing holds through healthy ticks, however many; but a tick with a low battery, the
  -- way clear and the link up, and a healthy one after it, take the machine back to normal
  -- operation.
  pub force_land-not_held :
      (m : FailSafeMachine D B) (is : List (Inputs D B)) (low high : Inputs D B)
      → All (IsHealthy m) is
      → IsLow m low
      → IsHealthy m high
      → ((run (force_land m) is).state ≡ emergency_land)
        × ((run (force_land m) (is ++ low ∷ high ∷ [])).state ≡ nominal)
  force_land-not_held m is low high a l h =
      let (t, e) = land-run m is a in
      (
        ap (λ n. n.state) e,
        ap (λ n. n.state) (run-append (force_land m) is (low ∷ high ∷ []))
            ∙ ap (λ n. (run n (low ∷ high ∷ [])).state) e
            ∙ land-recovers m t low high l h,
      )
