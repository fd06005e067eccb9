-- ===== src/Orchestrator/Advisories.antt =====
-- The advisories that the drone of src/orchestrator/mod.rs keeps of its peers.
use ruv_drone.Base.{
  ℕ, ◌<◌, ◌≤◌, ◌≡◌, ◌∙◌, refl, ap, subst, sym, ◌⊎◌, inl, inr, Bool, false, if◌then◌else◌, List, [],
  ◌∷◌, Option, none, some, arith, nat_key, Bool-cases, All, All-imp, AllPairs,
}
use ruv_drone.Base.Float.{Float}
use ruv_drone.Base.TreeMap.{TreeMap, get, insert}
use ruv_drone.Base.TreeMap.Laws.{get-insert-cases, get-insert_self}
use ruv_drone.Base.TreeMap.Order.{IsSorted, get_of_Above}
use ruv_drone.Latentmesh.Air.{Air}
use ruv_drone.Latentmesh.Node.Endpoint.{VerifiedAdvisory}
use ruv_drone.Orchestrator.Node.{
  SwarmOrchestrator, expire_latentmesh_advisories, holds_newer, is_current, is_fit,
  latentmesh_peer_is_eligible, receive_latentmesh_advisory, retain, source_of,
}

module _ {a : Air} {D B : Type 0} where
  -- A later epoch, or the same and a later sequence.
  abbrev pub IsLater : VerifiedAdvisory a D B → VerifiedAdvisory a D B → Type 0
  IsLater p q =
      let m = p.received.metadata in
      let n = q.received.metadata in
      (m.epoch < n.epoch) ⊎ ((m.epoch ≡ n.epoch) × (m.logical_sequence < n.logical_sequence))

  -- The advisories that are stored of a list that arrives, in their order.
  unfoldable pub stored :
      SwarmOrchestrator a D B → List (VerifiedAdvisory a D B) → List (VerifiedAdvisory a D B)
  stored o [] = []
  stored o (v ∷ vs) =
      let (p, taken) = receive_latentmesh_advisory o v in
      let rest = stored p vs in if taken then v ∷ rest else rest

  -- Of the same source, the one is later.
  abbrev pub Supersedes : VerifiedAdvisory a D B → VerifiedAdvisory a D B → Type 0
  Supersedes p q = source_of p ≡ source_of q → IsLater p q

  -- Later than an advisory that may be held.
  abbrev pub IsAfter : Option (VerifiedAdvisory a D B) → VerifiedAdvisory a D B → Type 0
  IsAfter none v = Unit
  IsAfter (some h) v = IsLater h v

  -- Later than what is held of its source.
  abbrev pub AfterHeld : SwarmOrchestrator a D B → VerifiedAdvisory a D B → Type 0
  AfterHeld o v = IsAfter (get (source_of v) o.latentmesh_advisories) v

  IsLater-trans : (p q r : VerifiedAdvisory a D B) → IsLater p q → IsLater q r → IsLater p r
  IsLater-trans p q r h k = ground arith

  holds_newer-IsAfter :
      (v : VerifiedAdvisory a D B) (h : Option (VerifiedAdvisory a D B))
      → holds_newer v h ≡ false
      → IsAfter h v
  holds_newer-IsAfter v none e = tt
  holds_newer-IsAfter v (some h) e = ground arith

  IsAfter-trans :
      (h : Option (VerifiedAdvisory a D B)) (v u : VerifiedAdvisory a D B)
      → IsAfter h v
      → IsLater v u
      → IsAfter h u
  IsAfter-trans none v u k l = tt
  IsAfter-trans (some h) v u k l = IsLater-trans h v u k l

  -- What comes after the drone has stored an advisory comes after that one and after what it held.
  store-AfterHeld :
      (o : SwarmOrchestrator a D B) (v u : VerifiedAdvisory a D B)
      → AfterHeld o v
      → AfterHeld
          (record o { latentmesh_advisories = insert (source_of v) v o.latentmesh_advisories })
          u
      → Supersedes v u × AfterHeld o u
  store-AfterHeld o v u h k =
      let m = o.latentmesh_advisories in
      let later : source_of v ≡ source_of u → IsLater v u = λ e.
        subst (λ w. IsAfter w u)
          (ap (λ x. get x (insert (source_of v) v m)) (sym e) ∙ get-insert_self (source_of v) v m)
          k in
      (
        later,
        elim (get-insert-cases (source_of u) (source_of v) v m) [
          | inl (e, _) ↦
              IsAfter-trans (get (source_of u) m) v u (subst (λ x. IsAfter (get x m) v) (sym e) h)
                (later (sym e))
          | inr e ↦ subst (λ w. IsAfter w u) e k
        ],
      )

  -- Of the advisories that arrive in any order, with repetitions, those that are stored of a source
  -- are each later than the ones stored before, and than what was held of that source at first.
  pub stored-Supersedes :
      (o : SwarmOrchestrator a D B) (vs : List (VerifiedAdvisory a D B))
      → AllPairs Supersedes (stored o vs) × All (AfterHeld o) (stored o vs)
  unfolding stored receive_latentmesh_advisory
  stored-Supersedes o [] = (tt, tt)
  stored-Supersedes o (v ∷ vs) =
      elim (Bool-cases (holds_newer v (get (source_of v) o.latentmesh_advisories))) [
        | inl e ↦ rw (stored, e) (stored-Supersedes o vs)
        | inr e ↦
            let p : SwarmOrchestrator a D B = record o {
              latentmesh_advisories = insert (source_of v) v o.latentmesh_advisories;
            } in
            let (pairs, all) = stored-Supersedes p vs in
            let h = holds_newer-IsAfter v (get (source_of v) o.latentmesh_advisories) e in
            rw (stored, e)
              (
                (All-imp (stored p vs) (λ u k. (store-AfterHeld o v u h k).0) all, pairs),
                (h, All-imp (stored p vs) (λ u k. (store-AfterHeld o v u h k).1) all),
              )
      ]

  abbrev kept_of :
      (VerifiedAdvisory a D B → Bool)
      → Option (VerifiedAdvisory a D B)
      → Option (VerifiedAdvisory a D B)
  kept_of p none = none
  kept_of p (some v) = if p v then some v else none

  get-retain :
      (p : VerifiedAdvisory a D B → Bool) (k : ℕ) (m : TreeMap ℕ (VerifiedAdvisory a D B))
      → IsSorted m
      → get k (retain p m) ≡ kept_of p (get k m)
  unfolding get
  get-retain p k [] h = refl
  get-retain p k ((j, v) ∷ m) h = ground (arith, get-retain p k m h.1, get_of_Above j m h.0)

module _ {a : Air} {D B : Type 0} ⦃b : Float B⦄ where
  is_fit-kept_of :
      (battery_warn_pct : B) (t now_ms : ℕ) (v : Option (VerifiedAdvisory a D B))
      → t ≤ now_ms
      → is_fit battery_warn_pct now_ms (kept_of (is_current t) v) ≡ is_fit battery_warn_pct now_ms v
  is_fit-kept_of battery_warn_pct t now_ms none h = refl
  is_fit-kept_of battery_warn_pct t now_ms (some v) h = ground arith

  -- Expiry frees what no query at that time or later would use: of every peer, eligibility for new
  -- work is then what it would have been without.
  latentmesh_peer_is_eligible-expire :
      (o : SwarmOrchestrator a D B) (t now_ms source : ℕ)
      → IsSorted o.latentmesh_advisories
      → t ≤ now_ms
      → latentmesh_peer_is_eligible (expire_latentmesh_advisories o t).0 source now_ms
        ≡ latentmesh_peer_is_eligible o source now_ms
  unfolding latentmesh_peer_is_eligible expire_latentmesh_advisories
  latentmesh_peer_is_eligible-expire o t now_ms source h l =
      ap (is_fit o.failsafe.battery_warn_pct now_ms)
        (get-retain (is_current t) source o.latentmesh_advisories h)
      ∙ is_fit-kept_of o.failsafe.battery_warn_pct t now_ms (get source o.latentmesh_advisories) l
