-- ===== src/Allocation/Auction/Awards.antt =====
-- To whom `resolve` of src/allocation/auction.rs gives the tasks.
use ruv_drone.Base.{
  ℕ, List, [], ◌∷◌, some, true, false, All, All-imp, Any, ◌≡◌, ◌⊎◌, inl, inr, refl, sym, ap, subst,
  arith, Bool-cases, Option-cases, nat_key,
}
use ruv_drone.Base.Float.{Float, IsOrdered}
use ruv_drone.Base.TreeMap.{TreeMap, get}
use ruv_drone.Allocation.Auction.{Bid, best_of, min_by_score}

module _ {B : Type 0} ⦃b : Float B⦄ where
  -- No bid compares as lower.
  abbrev NoneLower : Bid B → List (Bid B) → Type 0
  NoneLower bid bids = All (λ c. b.lt c.score bid.score ≡ false) bids

  -- Not a number: the one value that is not `<=` itself.
  abbrev pub IsNan : B → Type 0
  IsNan x = b.le x x ≡ false

  -- The first of the bids.
  abbrev pub IsFirst : Bid B → List (Bid B) → Type 0
  IsFirst bid [] = ⊥
  IsFirst bid (c ∷ bids) = c ≡ bid

  -- The score is a number and at most that of every bid whose score is one. A score that is not a
  -- number only wins where its bid came first.
  abbrev pub IsLeast : Bid B → List (Bid B) → Type 0
  IsLeast bid bids =
      ((b.le bid.score bid.score ≡ true)
        × All (λ c. (b.le bid.score c.score ≡ true) ⊎ IsNan c.score) bids)
      ⊎ (IsNan bid.score × IsFirst bid bids)

  -- The bids on a task, with one of the winner that is the least of them, or the first and no
  -- number.
  pub record IsAward (offers : TreeMap ℕ (List (Bid B))) (result : ℕ × ℕ) : Type 0 where
    pub bids : List (Bid B)
    pub bid : Bid B
    pub offered : get result.0 offers ≡ some bids
    pub placed : Any (λ c. c ≡ bid) bids
    pub least : IsLeast bid bids
    pub winner : bid.node_id ≡ result.1

  min_by_score-Any :
      (best m : Bid B) (bids : List (Bid B))
      → min_by_score best bids ≡ m
      → Any (λ c. c ≡ m) (best ∷ bids)
  min_by_score-Any best m [] h = inl h
  min_by_score-Any best m (bid ∷ bids) h = elim (Bool-cases (b.lt bid.score best.score)) [
    | inl e ↦ inr (min_by_score-Any bid m bids (ground (arith, h, e)))
    | inr e ↦ elim (min_by_score-Any best m bids (ground (arith, h, e))) [
      | inl k ↦ inl k
      | inr k ↦ inr (inr k)
    ]
  ]

  module _ (o : IsOrdered B) where
    abbrev Below : B → B → Type 0
    Below m x = (m ≡ x) ⊎ (b.le m x ≡ true)

    Below-not_lt : (m x : B) → Below m x → b.lt x m ≡ false
    Below-not_lt m x h = elim (Bool-cases (b.lt x m)) [
      | inr e ↦ e
      | inl e ↦ elim h [
        | inl k ↦ absurd (cc (o.le_of_lt x m e, o.lt_not_le x m e, k))
        | inr k ↦ absurd (cc (o.lt_not_le x m e, k))
      ]
    ]

    not_lt-Below : (m x y : B) → Below m x → b.lt y x ≡ false → b.lt y m ≡ false
    not_lt-Below m x y (inl h) k = subst (λ z. b.lt y z ≡ false) (sym h) k
    not_lt-Below m x y (inr h) k = elim (Bool-cases (b.lt y m)) [
      | inr e ↦ e
      | inl e ↦
          elim (o.lt_or_le y x (o.refl_of_le y m (o.le_of_lt y m e)).0 (o.refl_of_le m x h).1) [
            | inl l ↦ absurd (cc (l, k))
            | inr l ↦ absurd (cc (o.le_trans m x y h l, o.lt_not_le y m e))
          ]
    ]

    scores : (m x : Bid B) → (m ≡ x) ⊎ (b.le m.score x.score ≡ true) → Below m.score x.score
    scores m x (inl h) = inl (ap (λ c. c.score) h)
    scores m x (inr h) = inr h

    lower :
        (m x y : Bid B)
        → (m ≡ x) ⊎ (b.le m.score x.score ≡ true)
        → b.lt x.score y.score ≡ true
        → (m ≡ y) ⊎ (b.le m.score y.score ≡ true)
    lower m x y (inl h) k =
        inr (subst (λ z. b.le z.score y.score ≡ true) (sym h) (o.le_of_lt x.score y.score k))
    lower m x y (inr h) k =
        inr (o.le_trans m.score x.score y.score h (o.le_of_lt x.score y.score k))

    at_most : (x y : B) → b.le x x ≡ true → b.lt y x ≡ false → (b.le x y ≡ true) ⊎ IsNan y
    at_most x y s h = elim (Bool-cases (b.le y y)) [
      | inr e ↦ inr e
      | inl e ↦ elim (o.lt_or_le y x e s) [ inl l ↦ absurd (cc (l, h)) | inr l ↦ inl l ]
    ]

    is_least :
        (m first : Bid B) (bids : List (Bid B))
        → (m ≡ first) ⊎ (b.le m.score first.score ≡ true)
        → NoneLower m (first ∷ bids)
        → IsLeast m (first ∷ bids)
    is_least m first bids k h = elim (Bool-cases (b.le m.score m.score)) [
      | inl e ↦ inl (e, All-imp (first ∷ bids) (λ c l. at_most m.score c.score e l) h)
      | inr e ↦ elim k [
        | inl same ↦ inr (e, sym same)
        | inr le ↦ absurd (cc ((o.refl_of_le m.score first.score le).0, e))
      ]
    ]

    min_by_score-NoneLower :
        (best m : Bid B) (bids : List (Bid B))
        → min_by_score best bids ≡ m
        → ((m ≡ best) ⊎ (b.le m.score best.score ≡ true)) × NoneLower m bids
    min_by_score-NoneLower best m [] h = (inl (sym h), tt)
    min_by_score-NoneLower best m (bid ∷ bids) h = elim (Bool-cases (b.lt bid.score best.score)) [
      | inl e ↦
          let (k, l) = min_by_score-NoneLower bid m bids (ground (arith, h, e)) in
          (lower m bid best k e, (Below-not_lt m.score bid.score (scores m bid k), l))
      | inr e ↦
          let (k, l) = min_by_score-NoneLower best m bids (ground (arith, h, e)) in
          (k, (not_lt-Below m.score best.score bid.score (scores m best k) e, l))
    ]

    won :
        (offers : TreeMap ℕ (List (Bid B))) (task_id : ℕ) (bid : Bid B) (bids : List (Bid B))
        → get task_id offers ≡ some bids
        → best_of (some bids) ≡ some bid
        → IsAward offers (task_id, bid.node_id)
    won offers task_id bid [] e h = cc
    won offers task_id bid (first ∷ bids) e h =
        let m : min_by_score first bids ≡ bid = ground (arith, h) in
        let (k, l) = min_by_score-NoneLower first bid bids m in
        record {
          bids = first ∷ bids;
          bid = bid;
          offered = e;
          placed = min_by_score-Any first bid bids m;
          least =
              is_least bid first bids k
                (Below-not_lt bid.score first.score (scores bid first k), l);
          winner = refl;
        }

    pub best_of-IsAward :
        (offers : TreeMap ℕ (List (Bid B))) (task_id : ℕ) (bid : Bid B)
        → best_of (get task_id offers) ≡ some bid
        → IsAward offers (task_id, bid.node_id)
    best_of-IsAward offers task_id bid h = elim (Option-cases (get task_id offers)) [
      | inl e ↦ absurd (ground (arith, h, e))
      | inr (bids, e) ↦ won offers task_id bid bids e (subst (λ z. best_of z ≡ some bid) e h)
    ]
