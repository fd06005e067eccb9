-- ===== src/Latentmesh/Policy/Schedule.antt =====
-- `schedule` of src/latentmesh/policy.rs: decisions in the order of transmission.
use ruv_drone.Base.{
  ℕ, ◌+◌, ◌≤◌, ◌≡◌, ◌≢◌, refl, false, List, [], ◌∷◌, All, compare, Ordering, arith, if◌then◌else◌,
}
use mathlib.Core.List.{Perm}
use ruv_drone.Base.Float.{Float, IsOrdered}
use ruv_drone.Base.Sort.{IsSorted, sort_by, sort_by-IsSorted, sort_by-perm}
use ruv_drone.Latentmesh.Policy.Traffic.{
  AdaptivePolicy, DeliveryDecision, LinkSnapshot, MessageIntent, drop, send,
}
use ruv_drone.Latentmesh.Policy.Delivery.{evaluate}

pub record ScheduledDecision (W : Type 0) : Type 0 where
  pub original_index : ℕ
  pub decision : DeliveryDecision W

module _ {W : Type 0} ⦃f : Float W⦄ where
  -- `partial_cmp(..).unwrap_or(Equal)`, then by the caller's index.
  unfoldable pub compare_utility : W → W → ℕ → ℕ → Ordering
  compare_utility x y i j =
      if f.lt x y then Ordering.lt else if f.lt y x then Ordering.gt else compare i j

  unfoldable pub compare_decisions : DeliveryDecision W → DeliveryDecision W → ℕ → ℕ → Ordering
  unfolding compare_utility
  compare_decisions (send a) (send b) i j =
      compare_utility b.utility_per_byte a.utility_per_byte i j
  compare_decisions (send a) (drop r) i j = Ordering.lt
  compare_decisions (drop r) (send b) i j = Ordering.gt
  compare_decisions (drop r) (drop s) i j = compare i j

  unfoldable pub compare_scheduled : ScheduledDecision W → ScheduledDecision W → Ordering
  unfolding compare_decisions
  compare_scheduled a b = compare_decisions a.decision b.decision a.original_index b.original_index

  -- The decisions in the caller's order, numbered from `n`.
  unfoldable pub decisions :
      AdaptivePolicy W
      → ℕ
      → LinkSnapshot W
      → ℕ
      → List (MessageIntent W)
      → List (ScheduledDecision W)
  decisions p now_ms link n [] = []
  decisions p now_ms link n (i ∷ is) =
      record { original_index = n; decision = evaluate p now_ms link i }
      ∷ decisions p now_ms link (n + 1) is

  unfoldable pub schedule :
      AdaptivePolicy W → ℕ → LinkSnapshot W → List (MessageIntent W) → List (ScheduledDecision W)
  unfolding decisions
  schedule p now_ms link intents = sort_by compare_scheduled (decisions p now_ms link 0 intents)

  compare_scheduled-total :
      (x y : ScheduledDecision W)
      → Unit {0}
      → Unit {0}
      → compare_scheduled x y ≡ Ordering.gt
      → compare_scheduled y x ≢ Ordering.gt
  unfolding compare_scheduled
  compare_scheduled-total x y _ _ h k = ground arith

  -- Of two neighbours the first is sent if the second is; of two plans the second is not of
  -- greater utility, and equal ones, like two drops, keep the caller's order.
  abbrev pub InOrder : DeliveryDecision W → DeliveryDecision W → ℕ → ℕ → Type 0
  InOrder (send a) (send b) i j =
      (f.lt a.utility_per_byte b.utility_per_byte ≡ false)
      × (f.lt b.utility_per_byte a.utility_per_byte ≡ false → i ≤ j)
  InOrder (send a) (drop r) i j = Unit
  InOrder (drop r) (send b) i j = ⊥
  InOrder (drop r) (drop s) i j = i ≤ j

  abbrev pub AreInOrder : List (ScheduledDecision W) → Type 0
  AreInOrder [] = Unit
  AreInOrder (x ∷ []) = Unit
  AreInOrder (x ∷ y ∷ ys) =
      InOrder x.decision y.decision x.original_index y.original_index × AreInOrder (y ∷ ys)

  compare_decisions-InOrder :
      IsOrdered W
      → (a b : DeliveryDecision W) (i j : ℕ) → compare_decisions a b i j ≢ Ordering.gt
      → InOrder a b i j
  unfolding compare_decisions
  compare_decisions-InOrder o (send a) (send b) i j h = ground (
    arith,
    o.le_of_lt a.utility_per_byte b.utility_per_byte,
    o.lt_not_le b.utility_per_byte a.utility_per_byte,
  )
  compare_decisions-InOrder o (send a) (drop r) i j h = tt
  compare_decisions-InOrder o (drop r) (send b) i j h = h refl
  compare_decisions-InOrder o (drop r) (drop s) i j h = ground arith

  IsSorted-AreInOrder :
      IsOrdered W → (l : List (ScheduledDecision W)) → IsSorted compare_scheduled l → AreInOrder l
  unfolding compare_scheduled
  IsSorted-AreInOrder o [] h = tt
  IsSorted-AreInOrder o (x ∷ []) h = tt
  IsSorted-AreInOrder o (x ∷ y ∷ ys) h = (
    compare_decisions-InOrder o x.decision y.decision x.original_index y.original_index h.0,
    IsSorted-AreInOrder o (y ∷ ys) h.1,
  )

  All-units : (l : List (ScheduledDecision W)) → All (λ x. Unit {0}) l
  All-units [] = tt
  All-units (x ∷ xs) = (tt, All-units xs)

  -- The schedule is a rearrangement of the decisions on all the messages, each under its index in
  -- the caller's order, and its neighbours are in order: sends before drops, by falling utility.
  pub schedule-AreInOrder :
      IsOrdered W
      → (p : AdaptivePolicy W) (now_ms : ℕ) (link : LinkSnapshot W) (is : List (MessageIntent W))
      → Perm (schedule p now_ms link is) (decisions p now_ms link 0 is)
        × AreInOrder (schedule p now_ms link is)
  unfolding schedule
  schedule-AreInOrder o p now_ms link is = (
    sort_by-perm compare_scheduled (decisions p now_ms link 0 is),
    IsSorted-AreInOrder o (schedule p now_ms link is) (
        sort_by-IsSorted compare_scheduled (λ x. Unit {0}) compare_scheduled-total
          (decisions p now_ms link 0 is) (All-units (decisions p now_ms link 0 is))),
  )
