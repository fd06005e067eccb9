-- ===== src/Latentmesh/Protocol/Expiry.antt =====
-- `expire_stale` of src/latentmesh/protocol.rs: what it forgets and what it keeps.
use ruv_drone.Base.{ℕ, ◌+◌, ◌≤◌, ◌≡◌, refl, ◌↔◌, [], ◌∷◌, Option, none, some, arith, nat_key}
use mathlib.Core.Option
use ruv_drone.Base.TreeMap.{TreeMap, get, map_values}
use ruv_drone.Base.TreeMap.Laws.{get-map_values}
use ruv_drone.Latentmesh.Air.{Air}
use ruv_drone.Latentmesh.Protocol.Types.{AdvisoryPeerSnapshot, PeerRuntime, RxSession}
use ruv_drone.Latentmesh.Protocol.Session.{
  checkpoints_of, expire_peer, expire_stale, is_expired, peer_snapshot, snapshot_of,
  replay_checkpoints,
}

module _ (a : Air) {D B : Type 0} where
  -- A source has this snapshot, accepted no longer ago than the time to live.
  abbrev pub HasFresh : RxSession a D B → ℕ → ℕ → AdvisoryPeerSnapshot D B → Type 0
  HasFresh s now_ms x v =
      (p : PeerRuntime a D B) × (get x s.peers ≡ some p)
      × (p.snapshot ≡ some v)
      × (now_ms ≤ p.accepted_at_ms + s.config.advisory_ttl_ms)

  expire_peer-snapshot :
      (now ttl : ℕ) (p : PeerRuntime a D B) (v : AdvisoryPeerSnapshot D B)
      → ((expire_peer a now ttl p).snapshot ≡ some v)
        ↔ ((p.snapshot ≡ some v) × (now ≤ p.accepted_at_ms + ttl))
  unfolding expire_peer is_expired
  expire_peer-snapshot now ttl p v = (λ h. ground arith, λ h. ground arith)

  expire_peers-checkpoints :
      (now ttl : ℕ) (m : TreeMap ℕ (PeerRuntime a D B))
      → checkpoints_of a (map_values (expire_peer a now ttl) m) ≡ checkpoints_of a m
  unfolding checkpoints_of map_values expire_peer
  expire_peers-checkpoints now ttl [] = refl
  expire_peers-checkpoints now ttl ((k, p) ∷ m) = ground (arith, expire_peers-checkpoints now ttl m)

  snapshot_of-expire :
      (now ttl : ℕ) (o : Option (PeerRuntime a D B)) (v : AdvisoryPeerSnapshot D B)
      → (snapshot_of a (Option.map (expire_peer a now ttl) o) ≡ some v) ↔ (
          (p : PeerRuntime a D B) × (o ≡ some p)
          × (p.snapshot ≡ some v)
          × (now ≤ p.accepted_at_ms + ttl))
  snapshot_of-expire now ttl none v = (λ h. cc, λ (p, e, _, _). cc)
  snapshot_of-expire now ttl (some p) v = (
    λ h. let (e, fresh) = (expire_peer-snapshot now ttl p v).0 h in (p, refl, e, fresh),
    λ (q, e, k, fresh).
        let same : p ≡ q = ground arith in
        (expire_peer-snapshot now ttl p v).1 (rw same (k, fresh)),
  )

  -- After an expiry a source's snapshot is there exactly if it was there before and is no older
  -- than the time to live; every source's epoch, sequence and time are kept.
  pub expire_stale-HasFresh :
      (s : RxSession a D B) (now_ms x : ℕ) (v : AdvisoryPeerSnapshot D B)
      → let t = (expire_stale a s now_ms).0 in
        ((peer_snapshot a t x ≡ some v) ↔ HasFresh s now_ms x v)
        × (replay_checkpoints a t ≡ replay_checkpoints a s)
  unfolding expire_stale peer_snapshot replay_checkpoints
  expire_stale-HasFresh s now x v =
      let f = expire_peer a now s.config.advisory_ttl_ms in
      (
        rw (get-map_values x f s.peers)
            (snapshot_of-expire now s.config.advisory_ttl_ms (get x s.peers) v),
        expire_peers-checkpoints now s.config.advisory_ttl_ms s.peers,
      )
