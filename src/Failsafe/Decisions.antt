-- ===== src/Failsafe/Decisions.antt =====
-- What one tick, and a run of ticks, of src/failsafe/mod.rs decides.
use ruv_drone.Base.{
  ℕ, ◌-◌, ◌≡◌, refl, sym, ap, ◌∙◌, subst, ◌⊎◌, true, false, if◌then◌else◌, List, [], ◌∷◌, ◌++◌,
  none, some, All, arith,
}
use ruv_drone.Base.Float.{Float}
use ruv_drone.Failsafe.{
  FailSafeMachine, FailSafeState, Inputs, nominal, autonomous_hold, low_battery_warn,
  return_to_home, emergency_diverge, run, tick, start_or,
}

-- What a healthy tick makes of each state: the two conditions that it clears go, the rest stay.
abbrev pub settled : FailSafeState → FailSafeState
settled autonomous_hold = nominal
settled low_battery_warn = nominal
settled s = s

module _ {D B : Type 0} ⦃d : Float D⦄ ⦃b : Float B⦄ where
  abbrev pub IsClear : FailSafeMachine D B → Inputs D B → Type 0
  IsClear m i =
      (d.is_finite i.nearest_neighbor_dist ≡ true)
      × (d.lt i.nearest_neighbor_dist m.collision_dist_m ≡ false)

  -- No neighbour too close, the link up, and a battery above both of its levels.
  abbrev pub IsHealthy : FailSafeMachine D B → Inputs D B → Type 0
  IsHealthy m i =
      IsClear m i
      × (i.link_alive ≡ true)
      × (b.is_finite i.drone.battery_pct ≡ true)
      × (b.le i.drone.battery_pct m.battery_warn_pct ≡ false)
      × (b.le i.drone.battery_pct m.battery_rth_pct ≡ false)

  abbrev pub IsLost : FailSafeMachine D B → Inputs D B → Type 0
  IsLost m i = IsClear m i × (i.link_alive ≡ false)

  -- A neighbour that is too close, or a distance that is not finite, makes the machine diverge
  -- from every state, whatever the link and the battery, and leaves the link timer alone. With the
  -- way clear and the link up, a critical or unreadable battery sends it home from every state.
  pub tick_priority :
      (m : FailSafeMachine D B) (i : Inputs D B)
      → ((d.is_finite i.nearest_neighbor_dist ≡ false)
            ⊎ (d.lt i.nearest_neighbor_dist m.collision_dist_m ≡ true)
          → ((tick m i).state ≡ emergency_diverge)
            × ((tick m i).link_loss_start ≡ m.link_loss_start))
        × (IsClear m i
            → i.link_alive ≡ true
            → (b.is_finite i.drone.battery_pct ≡ false)
              ⊎ (b.le i.drone.battery_pct m.battery_rth_pct ≡ true)
            → ((tick m i).state ≡ return_to_home) × ((tick m i).link_loss_start ≡ none))
  unfolding tick
  tick_priority m i = ground arith

  tick_healthy :
      (m : FailSafeMachine D B) (i : Inputs D B)
      → IsHealthy m i
      → tick m i ≡ (record m { state = settled m.state; link_loss_start = none })
  unfolding tick
  tick_healthy m i h = ground arith

  settle : FailSafeMachine D B → FailSafeMachine D B
  settle m = record m { state = settled m.state; link_loss_start = none }

  settle_twice : (m : FailSafeMachine D B) → settle (settle m) ≡ settle m
  unfolding settle
  settle_twice m = ground arith

  -- Healthy ticks, however many, clear a hold and a low-battery warning and stop the link timer,
  -- and every other state outlasts them all: having diverged once, the machine stays diverged.
  pub run_healthy :
      (m : FailSafeMachine D B) (i : Inputs D B) (is : List (Inputs D B))
      → All (IsHealthy m) (i ∷ is)
      → run m (i ∷ is) ≡ (record m { state = settled m.state; link_loss_start = none })
  unfolding run settle
  run_healthy m i [] h = tick_healthy m i h.0
  run_healthy m i (j ∷ is) h =
      ap (λ n. run n (j ∷ is)) (tick_healthy m i h.0)
      ∙ run_healthy (settle m) j is h.1
      ∙ settle_twice m

  -- What a tick with the link lost makes of the state, for a timer that started at `t`.
  abbrev escalated : FailSafeMachine D B → ℕ → Inputs D B → FailSafeState → FailSafeState
  escalated m t i s =
      let elapsed = d.of_nanos (i.later_ns - t) in
      if d.lt m.link_loss_rth_secs elapsed
      then return_to_home
      else if d.lt m.link_loss_hold_secs elapsed
      then autonomous_hold
      else s

  tick_lost :
      (m : FailSafeMachine D B) (i : Inputs D B) (t : ℕ)
      → start_or m.link_loss_start i.now_ns ≡ t
      → IsLost m i
      → tick m i ≡ (record m { state = escalated m t i m.state; link_loss_start = some t })
  unfolding tick
  tick_lost m i t e h = ground arith

  run_lost_from :
      (m : FailSafeMachine D B) (t : ℕ) (is : List (Inputs D B)) (j : Inputs D B)
      → m.link_loss_start ≡ some t
      → All (IsLost m) is
      → IsLost m j
      → ((run m (is ++ j ∷ [])).state ≡ escalated m t j (run m is).state)
        × ((run m (is ++ j ∷ [])).link_loss_start ≡ some t)
  unfolding run
  run_lost_from m t [] j e h k = rw (tick_lost m j t (rw e) k) (refl, refl)
  run_lost_from m t (i ∷ is) j e h k =
      subst
        (λ n.
          ((run n (is ++ j ∷ [])).state ≡ escalated m t j (run n is).state)
          × ((run n (is ++ j ∷ [])).link_loss_start ≡ some t))
        (sym (tick_lost m i t (rw e) h.0))
        (run_lost_from (record m { state = escalated m t i m.state; link_loss_start = some t }) t is
          j refl h.1 k)

  run_lost_state :
      (m : FailSafeMachine D B) (i : Inputs D B) (is : List (Inputs D B)) (j : Inputs D B)
      → m.link_loss_start ≡ none
      → All (IsLost m) (i ∷ is)
      → IsLost m j
      → let past = run m (i ∷ is) in
        let last = run m (i ∷ is ++ j ∷ []) in
        (last.state ≡ escalated m i.now_ns j past.state) × (last.link_loss_start ≡ some i.now_ns)
  unfolding run
  run_lost_state m i is j e h k =
      subst
        (λ n.
          ((run n (is ++ j ∷ [])).state ≡ escalated m i.now_ns j (run n is).state)
          × ((run n (is ++ j ∷ [])).link_loss_start ≡ some i.now_ns))
        (sym (tick_lost m i i.now_ns (rw e) h.0))
        (run_lost_from
          (record m { state = escalated m i.now_ns i m.state; link_loss_start = some i.now_ns })
          i.now_ns is j refl h.1 k)

  -- What the time since `t` makes of a state: home past the one limit, else a hold past the other,
  -- else nothing. A time that does not compare with a limit is not past it.
  abbrev pub Escalates :
      FailSafeMachine D B → ℕ → Inputs D B → FailSafeState → FailSafeState → Type 0
  Escalates m t i before after =
      let elapsed = d.of_nanos (i.later_ns - t) in
      ((d.lt m.link_loss_rth_secs elapsed ≡ true) × (after ≡ return_to_home))
      ⊎ ((d.lt m.link_loss_rth_secs elapsed ≡ false)
          × (d.lt m.link_loss_hold_secs elapsed ≡ true)
          × (after ≡ autonomous_hold))
      ⊎ ((d.lt m.link_loss_rth_secs elapsed ≡ false)
          × (d.lt m.link_loss_hold_secs elapsed ≡ false)
          × (after ≡ before))

  escalated-Escalates :
      (m : FailSafeMachine D B) (t : ℕ) (i : Inputs D B) (s after : FailSafeState)
      → after ≡ escalated m t i s
      → Escalates m t i s after
  escalated-Escalates m t i s after h = ground (arith, h)

  -- While the link stays lost and the way clear, on the last tick too, the timer counts from the
  -- first tick that lost it, and the last tick sends the machine home past the one limit, else into
  -- a hold past the other, and else leaves the state that it finds; the battery plays no part.
  pub run_lost :
      (m : FailSafeMachine D B) (i : Inputs D B) (is : List (Inputs D B)) (j : Inputs D B)
      → m.link_loss_start ≡ none
      → All (IsLost m) (i ∷ is)
      → IsLost m j
      → let past = run m (i ∷ is) in
        let last = run m (i ∷ is ++ j ∷ []) in
        Escalates m i.now_ns j past.state last.state × (last.link_loss_start ≡ some i.now_ns)
  run_lost m i is j e h k =
      let (s, t) = run_lost_state m i is j e h k in (escalated-Escalates m i.now_ns j _ _ s, t)
