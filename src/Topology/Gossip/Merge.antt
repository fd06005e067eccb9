-- ===== src/Topology/Gossip/Merge.antt =====
-- The laws of `merge` and `spread` of src/topology/gossip.rs.
use ruv_drone.Base.{
  ℕ, ◌≤◌, ◌<◌, ◌≡◌, refl, ◌∙◌, ◌⊎◌, inl, inr, List, [], ◌∷◌, All, All-imp, All-select, All-take,
  Any, ◌≢◌, ◌&&◌, ◌==◌, not, arith, length, select, length-take-le,
}
use ruv_drone.Topology.Gossip.{GossipState, merge, spread}

module _ {A : Type 0} where
  -- `b` is at least as new as `a`: by version, then by origin.
  abbrev pub NotOlder : GossipState A → GossipState A → Type 0
  NotOlder a b = (a.version < b.version) ⊎ ((a.version ≡ b.version) × (a.origin ≤ b.origin))

  -- States with the same version and origin are the same state.
  abbrev pub Agree : GossipState A → GossipState A → Type 0
  Agree a b = a.version ≡ b.version → a.origin ≡ b.origin → a ≡ b

  -- The states that a node hears of, merged into its own one after the other.
  unfoldable pub merge_all : GossipState A → List (GossipState A) → GossipState A
  merge_all s [] = s
  merge_all s (x ∷ xs) = merge_all (merge s x) xs

  merge_one_of : (a b : GossipState A) → (merge a b ≡ a) ⊎ (merge a b ≡ b)
  unfolding merge
  merge_one_of a b = ground arith

  merge-NotOlder : (a b : GossipState A) → NotOlder a (merge a b) × NotOlder b (merge a b)
  unfolding merge
  merge-NotOlder a b = ground arith

  merge_assoc : (a b c : GossipState A) → merge (merge a b) c ≡ merge a (merge b c)
  unfolding merge
  merge_assoc a b c = ground arith

  merge_comm : (a b : GossipState A) → Agree a b → merge a b ≡ merge b a
  unfolding merge
  merge_comm a b h = ground (arith, h)

  -- Merging returns one of the two states and nothing older than either; it is associative and
  -- idempotent, and commutative for states that agree.
  pub merge-semilattice :
      (a b c : GossipState A)
      → ((merge a b ≡ a) ⊎ (merge a b ≡ b))
        × (NotOlder a (merge a b) × NotOlder b (merge a b))
        × (merge (merge a b) c ≡ merge a (merge b c))
        × (merge a a ≡ a)
        × (Agree a b → merge a b ≡ merge b a)
  unfolding merge
  merge-semilattice a b c =
      (merge_one_of a b, merge-NotOlder a b, merge_assoc a b c, ground arith, merge_comm a b)

  NotOlder-trans : (a b c : GossipState A) → NotOlder a b → NotOlder b c → NotOlder a c
  NotOlder-trans a b c h k = ground arith

  found_either :
      (s x r : GossipState A) (xs : List (GossipState A))
      → (merge s x ≡ s) ⊎ (merge s x ≡ x)
      → (r ≡ merge s x) ⊎ Any (λ y. r ≡ y) xs
      → (r ≡ s) ⊎ ((r ≡ x) ⊎ Any (λ y. r ≡ y) xs)
  found_either s x r xs (inl e) (inl f) = inl (f ∙ e)
  found_either s x r xs (inr e) (inl f) = inr (inl (f ∙ e))
  found_either s x r xs e (inr f) = inr (inr f)

  -- What a node holds after merging any states into its own is its own or one of them, and none of
  -- them all is newer.
  pub merge_all-NotOlder :
      (s : GossipState A) (xs : List (GossipState A))
      → NotOlder s (merge_all s xs)
        × All (λ x. NotOlder x (merge_all s xs)) xs
        × ((merge_all s xs ≡ s) ⊎ Any (λ x. merge_all s xs ≡ x) xs)
  unfolding merge_all
  merge_all-NotOlder s [] = (inr (refl, omega arith), tt, inl refl)
  merge_all-NotOlder s (x ∷ xs) =
      let r = merge_all (merge s x) xs in
      let (newer, all_newer, found) = merge_all-NotOlder (merge s x) xs in
      let (after_s, after_x) = merge-NotOlder s x in
      (
        NotOlder-trans s (merge s x) r after_s newer,
        (NotOlder-trans x (merge s x) r after_x newer, all_newer),
        found_either s x r xs (merge_one_of s x) found,
      )

module _ {A : Type 0} where
  -- A state goes to at most `fanout` of the known peers, never to the node itself nor back to its
  -- origin, however the peers are shuffled.
  spread-All :
      (shuffle : List ℕ → List ℕ)
      → ((P : ℕ → Type 0) (l : List ℕ) → All P l → All P (shuffle l))
      → (s : GossipState A) (fanout : ℕ) (peers : List ℕ) (me : ℕ) (P : ℕ → Type 0) → All P peers
      → (length (spread shuffle s fanout peers me) ≤ fanout)
        × All (λ n. P n × (n ≢ me) × (n ≢ s.origin)) (spread shuffle s fanout peers me)
  unfolding spread
  spread-All shuffle keeps s fanout peers me P h =
      let p = λ (n : ℕ). not (n == me) && not (n == s.origin) in
      let chosen =
        All-imp (select p peers) (λ n k. (k.0, ground arith, ground arith))
          (All-select P p peers h) in
      (
        length-take-le fanout (shuffle (select p peers)),
        All-take _ fanout (shuffle (select p peers)) (keeps _ (select p peers) chosen),
      )
