-- ===== src/Latentmesh/Policy/Treatment.antt =====
-- How src/latentmesh/policy.rs answers packet loss: more loss never brings less redundancy.
use ruv_drone.Base.{
  ℕ, ◌+◌, ◌*◌, ◌/◌, ◌≤◌, ◌<◌, ◌≡◌, true, Option, some, none, arith, u32_max, u64_max, saturate_u64,
}
use native.Mathlib.Nat.{mul-le-mul, mul-le-mul_left, le-add_right}
use ruv_drone.Base.Float.{Float, IsOrdered}
use ruv_drone.Latentmesh.Policy.Traffic.{
  AckMode, Redundancy, TrafficClass, expanded_wire_bytes, opportunistic, required,
}
use ruv_drone.Latentmesh.Policy.Delivery.{ack_for, delivery_treatment, redundancy_for}

-- What the treatments never exceed.
pub record IsModest (r : Redundancy) : Type 0 where
  pub some_copy : 1 ≤ r.copies
  pub few_copies : r.copies ≤ 3
  pub some_parity : r.parity_percent ≤ 50

saturate_u64-id : (n : ℕ) → n ≤ u64_max → saturate_u64 n ≡ n
saturate_u64-id n h = ground arith

le_of_parity : (p : ℕ) → p ≤ 50 → 100 + p ≤ 150
le_of_parity p h = omega arith

product-le : (base c p : ℕ) → base ≤ u32_max → c ≤ 3 → p ≤ 50 → base * c * (100 + p) ≤ u32_max * 450
product-le base c p h k l = omega (arith, mul-le-mul (mul-le-mul h k) (le_of_parity p l))

product-ge : (base c p : ℕ) → 1 ≤ c → base * 100 ≤ base * c * (100 + p)
product-ge base c p h =
    let le : base * 1 ≤ base * c = mul-le-mul_left base h in
    omega (arith, mul-le-mul le (le-add_right 100 p))

-- Nothing saturates.
expanded_wire_bytes-exact :
    (base : ℕ) (r : Redundancy)
    → base ≤ u32_max
    → IsModest r
    → expanded_wire_bytes base r ≡ (base * r.copies * (100 + r.parity_percent) + 99) / 100
unfolding expanded_wire_bytes
expanded_wire_bytes-exact base r h m =
    let le = product-le base r.copies r.parity_percent h m.few_copies m.some_parity in
    let le' : base * r.copies ≤ u32_max * 3 = mul-le-mul h m.few_copies in
    rw (
      saturate_u64-id (base * r.copies) (omega arith),
      saturate_u64-id (base * r.copies * (100 + r.parity_percent)) (omega arith),
      saturate_u64-id (base * r.copies * (100 + r.parity_percent) + 99) (omega arith),
    )

-- For a `u32` message and a modest redundancy nothing saturates: the bytes on the wire are the
-- copies with their parity, rounded up, so never fewer than the message has.
pub expanded_wire_bytes-ceiling :
    (base : ℕ) (r : Redundancy)
    → base ≤ u32_max
    → IsModest r
    → let exact = base * r.copies * (100 + r.parity_percent) in
      (exact ≤ 100 * expanded_wire_bytes base r)
      × (100 * expanded_wire_bytes base r < exact + 100)
      × (base ≤ expanded_wire_bytes base r)
expanded_wire_bytes-ceiling base r h m = omega (
  arith,
  expanded_wire_bytes-exact base r h m,
  product-ge base r.copies r.parity_percent m.some_copy,
)

abbrev pub strength : AckMode → ℕ
strength AckMode.none = 0
strength opportunistic = 1
strength required = 2

-- The second treatment is at least as strong as the first, and refusal is the strongest.
abbrev pub Stronger : Option (AckMode × Redundancy) → Option (AckMode × Redundancy) → Type 0
Stronger t none = Unit
Stronger none (some u) = ⊥
Stronger (some t) (some u) =
    (strength t.0 ≤ strength u.0)
    × (t.1.copies ≤ u.1.copies)
    × (t.1.parity_percent ≤ u.1.parity_percent)

module _ {W : Type 0} ⦃f : Float W⦄ where
  pub redundancy_for-IsModest : (loss : W) → IsModest (redundancy_for loss)
  unfolding redundancy_for
  redundancy_for-IsModest loss = ground arith

  -- As the measured loss grows the treatment of a class only gets stronger: acknowledgement,
  -- copies and parity never shrink, and a link that was refused stays refused.
  pub delivery_treatment_mono :
      IsOrdered W
      → (x y : W) (class : TrafficClass) → f.le x y ≡ true
      → Stronger (delivery_treatment x class) (delivery_treatment y class)
  unfolding delivery_treatment ack_for redundancy_for
  delivery_treatment_mono o x y class h = ground (
    arith,
    o.le_trans (f.decimal 80 2) x y,
    o.le_trans (f.decimal 65 2) x y,
    o.le_trans (f.decimal 50 2) x y,
    o.le_trans (f.decimal 25 2) x y,
    o.le_trans (f.decimal 10 2) x y,
  )
