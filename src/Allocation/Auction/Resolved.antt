-- ===== src/Allocation/Auction/Resolved.antt =====
-- What `resolve` of src/allocation/auction.rs does with each pending task.
use ruv_drone.Base.{
  ℕ, List, [], ◌∷◌, Option, none, some, All, Any, ◌≡◌, ◌≢◌, ◌⊎◌, inl, inr, refl, sym, ap, ◌∙◌,
  subst, arith, Option-cases, map, nat_key,
}
use ruv_drone.Base.Float.{Float, IsOrdered}
use ruv_drone.Base.TreeMap.{TreeMap, get, remove}
use ruv_drone.Base.TreeMap.Laws.{get-insert-cases, get-remove-cases, get-remove_self}
use ruv_drone.Types.{SwarmTask}
use ruv_drone.Allocation.Auction.{
  AuctionAllocator, Bid, assign, award, award_each, best_of, or_default, remove_resolved, resolve,
}
use ruv_drone.Allocation.Auction.Awards.{IsAward, best_of-IsAward}

get-key :
    {V : Type 0} (id : ℕ) (v : V) (m : TreeMap ℕ V)
    → get id m ≡ some v
    → Any (λ j. j ≡ id) (map (λ e. e.0) m)
unfolding get
get-key id v [] h = cc
get-key id v ((j, w) ∷ m) h = ground (arith, get-key id v m)

get-remove_gone :
    {V : Type 0} (id j : ℕ) (m : TreeMap ℕ V) → get id m ≡ none → get id (remove j m) ≡ none
get-remove_gone id j m h = elim (get-remove-cases id j m) [ inl e ↦ e.1 | inr e ↦ e ∙ h ]

get-remove_other :
    {V : Type 0} (id j : ℕ) (m : TreeMap ℕ V) → j ≢ id → get id (remove j m) ≡ get id m
get-remove_other id j m h = elim (get-remove-cases id j m) [
  | inl e ↦ absurd (h (sym e.0))
  | inr e ↦ e
]

module _ {D B : Type 0} where
  remove_resolved-gone :
      (id : ℕ) (results : List (ℕ × ℕ)) (tasks : TreeMap ℕ (SwarmTask D B))
      → get id tasks ≡ none
      → get id (remove_resolved results tasks) ≡ none
  remove_resolved-gone id [] tasks h = h
  remove_resolved-gone id ((j, w) ∷ results) tasks h =
      remove_resolved-gone id results (remove j tasks) (get-remove_gone id j tasks h)

  remove_resolved-removes :
      (id winner : ℕ) (results : List (ℕ × ℕ)) (tasks : TreeMap ℕ (SwarmTask D B))
      → Any (λ r. r ≡ (id, winner)) results
      → get id (remove_resolved results tasks) ≡ none
  remove_resolved-removes id winner [] tasks h = absurd h
  remove_resolved-removes id winner ((j, w) ∷ results) tasks (inl h) =
      remove_resolved-gone id results (remove j tasks) (
        subst (λ i. get id (remove i tasks) ≡ none) (ap (λ r. r.0) (sym h))
          (get-remove_self id tasks))
  remove_resolved-removes id winner ((j, w) ∷ results) tasks (inr h) =
      remove_resolved-removes id winner results (remove j tasks) h

  remove_resolved-other :
      (id : ℕ) (results : List (ℕ × ℕ)) (tasks : TreeMap ℕ (SwarmTask D B))
      → All (λ r. r.0 ≢ id) results
      → get id (remove_resolved results tasks) ≡ get id tasks
  remove_resolved-other id [] tasks h = refl
  remove_resolved-other id ((j, w) ∷ results) tasks h =
      remove_resolved-other id results (remove j tasks) h.1 ∙ get-remove_other id j tasks h.0

  assign-other :
      (id j winner : ℕ) (task : Option (SwarmTask D B)) (tasks : TreeMap ℕ (SwarmTask D B))
      → j ≢ id
      → get id (assign task j winner tasks) ≡ get id tasks
  assign-other id j winner none tasks h = refl
  assign-other id j winner (some task) tasks h =
      elim (get-insert-cases id j (record task { assigned_to = some winner }) tasks) [
        | inl e ↦ absurd (h (sym e.0))
        | inr e ↦ e
      ]

unbid :
    {B : Type 0} ⦃b : Float B⦄ (bids : Option (List (Bid B)))
    → best_of bids ≡ none
    → or_default bids ≡ []
unbid none h = refl
unbid (some []) h = refl
unbid (some (bid ∷ bids)) h = cc

module _ {D B : Type 0} ⦃b : Float B⦄ where
  award_each-none :
      (a : AuctionAllocator D B) (j : ℕ) (js : List ℕ)
      → best_of (get j a.bids) ≡ none
      → award_each a (j ∷ js) ≡ award_each a js
  award_each-none a j js h = ground (arith, h)

  award_each-some :
      (a : AuctionAllocator D B) (j : ℕ) (js : List ℕ) (bid : Bid B)
      → best_of (get j a.bids) ≡ some bid
      → award_each a (j ∷ js) ≡ (
          let (c, results) = award_each (award a j bid.node_id) js in
          (c, (j, bid.node_id) ∷ results))
  award_each-some a j js bid h = ground (arith, h)

  -- A task without a bid is passed over.
  abbrev PassesOver : ℕ → AuctionAllocator D B → AuctionAllocator D B × List (ℕ × ℕ) → Type 0
  PassesOver id a (c, results) =
      All (λ r. r.0 ≢ id) results
      × (get id c.pending_tasks ≡ get id a.pending_tasks)
      × (get id c.bids ≡ get id a.bids)

  award_each-PassesOver :
      (id : ℕ) (a : AuctionAllocator D B) (ids : List ℕ)
      → best_of (get id a.bids) ≡ none
      → PassesOver id a (award_each a ids)
  award_each-PassesOver id a [] h = (tt, refl, refl)
  award_each-PassesOver id a (j ∷ js) h = elim (Option-cases (best_of (get j a.bids))) [
    | inl e ↦
        subst (λ z. PassesOver id a z) (sym (award_each-none a j js e))
          (award_each-PassesOver id a js h)
    | inr (bid, e) ↦
        let other : j ≢ id = λ s. cc (subst (λ i. best_of (get i a.bids) ≡ some bid) s e, h) in
        let gone = get-remove_other id j a.bids other in
        let (l, p, q) =
          award_each-PassesOver id (award a j bid.node_id) js
            (subst (λ z. best_of z ≡ none) (sym gone) h) in
        subst (λ z. PassesOver id a z) (sym (award_each-some a j js bid e))
          (
            (other, l),
            p ∙ assign-other id j bid.node_id (get j a.pending_tasks) a.pending_tasks other,
            q ∙ gone,
          )
  ]

  -- A task is among the results with a winner, and its bids are gone.
  abbrev Settles : ℕ → ℕ → AuctionAllocator D B × List (ℕ × ℕ) → Type 0
  Settles id winner (c, results) = Any (λ r. r ≡ (id, winner)) results × (get id c.bids ≡ none)

  award_each-gone :
      (id : ℕ) (a : AuctionAllocator D B) (ids : List ℕ)
      → get id a.bids ≡ none
      → get id (award_each a ids).0.bids ≡ none
  award_each-gone id a ids h =
      (award_each-PassesOver id a ids (subst (λ z. best_of z ≡ none) (sym h) refl)).2 ∙ h

  same_award :
      (id j : ℕ) (bid next : Bid B) (a : AuctionAllocator D B)
      → id ≡ j
      → best_of (get id a.bids) ≡ some bid
      → best_of (get j a.bids) ≡ some next
      → ◌≡◌ {A = ℕ × ℕ} (j, next.node_id) (id, bid.node_id)
  same_award id j bid next a s h e =
      let same : some next ≡ some bid =
        sym e ∙ subst (λ i. best_of (get i a.bids) ≡ some bid) s h in
      let k : next ≡ bid = cc same in cc (s, ap (λ (x : Bid B). x.node_id) k)

  award_each-Settles :
      (id : ℕ) (bid : Bid B) (a : AuctionAllocator D B) (ids : List ℕ)
      → Any (λ j. j ≡ id) ids
      → best_of (get id a.bids) ≡ some bid
      → Settles id bid.node_id (award_each a ids)
  award_each-Settles id bid a [] m h = absurd m
  award_each-Settles id bid a (j ∷ js) (inl m) h =
      let e = subst (λ i. best_of (get i a.bids) ≡ some bid) (sym m) h in
      subst (λ z. Settles id bid.node_id z) (sym (award_each-some a j js bid e))
        (
          inl (ap (λ i. (i, bid.node_id)) m),
          award_each-gone id (award a j bid.node_id) js
              (subst (λ i. get id (remove i a.bids) ≡ none) (sym m) (get-remove_self id a.bids)),
        )
  award_each-Settles id bid a (j ∷ js) (inr m) h = elim (Option-cases (best_of (get j a.bids))) [
    | inl e ↦
        subst (λ z. Settles id bid.node_id z) (sym (award_each-none a j js e))
          (award_each-Settles id bid a js m h)
    | inr (next, e) ↦
        subst (λ z. Settles id bid.node_id z) (sym (award_each-some a j js next e))
          (elim (get-remove-cases id j a.bids) [
            | inl (same, gone) ↦ (
              inl (same_award id j bid next a same h e),
              award_each-gone id (award a j next.node_id) js gone,
            )
            | inr kept ↦
                let (l, g) =
                  award_each-Settles id bid (award a j next.node_id) js m
                    (subst (λ z. best_of z ≡ some bid) (sym kept) h) in
                (inr l, g)
          ])
  ]

  -- A task that is pending, after `resolve`. If there is a bid on it, it is among the results with
  -- the node of a bid whose score is at most every other that is a number, or, where that score is
  -- none itself, of the bid that came first; and it is neither pending nor has bids any more. With
  -- no bid it is in none of the results and stays as it was.
  pub resolve-settles :
      (o : IsOrdered B) (a : AuctionAllocator D B) (id : ℕ) (task : SwarmTask D B)
      → get id a.pending_tasks ≡ some task
      → let (c, results) = resolve a in
        ((winner : ℕ) × IsAward a.bids (id, winner)
          × Any (λ r. r ≡ (id, winner)) results
          × (get id c.pending_tasks ≡ none)
          × (get id c.bids ≡ none))
        ⊎ ((or_default (get id a.bids) ≡ [])
            × All (λ r. r.0 ≢ id) results
            × (get id c.pending_tasks ≡ some task)
            × (get id c.bids ≡ get id a.bids))
  unfolding resolve
  resolve-settles o a id task h =
      let ids = map (λ e. e.0) a.pending_tasks in
      let (c, results) = award_each a ids in
      elim (Option-cases (best_of (get id a.bids))) [
        | inl e ↦
            let (l, p, q) = award_each-PassesOver id a ids e in
            inr (unbid _ e, l, remove_resolved-other id results c.pending_tasks l ∙ p ∙ h, q)
        | inr (bid, e) ↦
            let (m, g) = award_each-Settles id bid a ids (get-key id task a.pending_tasks h) e in
            inl (
              bid.node_id,
              best_of-IsAward o a.bids id bid e,
              m,
              remove_resolved-removes id bid.node_id results c.pending_tasks m,
              g,
            )
      ]
