-- ===== src/Latentmesh/Protocol/Reception.antt =====
-- What the two entry points of src/latentmesh/protocol.rs promise of the snapshots they return.
use ruv_drone.Base.{ℕ, ◌≡◌, ◌⊎◌, inl, inr, List, some, Result, ok, nat_key, ◌∙◌, ap}
use ruv_drone.Base.TreeMap.{get, insert}
use ruv_drone.Latentmesh.Air.{Air}
use ruv_drone.Latentmesh.Protocol.Types.{
  AdvisoryPeerSnapshot, PeerRuntime, ReceivedAdvisorySnapshot, RxSession,
}
use ruv_drone.Latentmesh.Protocol.Receive.{Outcome, ingest_frame, ingest_frame_bytes}
use ruv_drone.Latentmesh.Protocol.Effects.{
  Effect, Keeps, ingest_frame-Effect, ingest_frame_bytes-Effect,
}
use ruv_drone.Latentmesh.Protocol.Progress.{IsAdmission, admit_message-IsAdmission}

module _ (a : Air) {S D B : Type 0}
    (decode : a.Critical → Result S (AdvisoryPeerSnapshot D B)) where
  -- One snapshot came out, of the expected source, by an admission against the peer that the
  -- source had; of all peers only that source's has changed.
  pub record Receives (s : RxSession a D B) (x now_ms : ℕ) (o : Outcome a decode) : Type 0 where
    pub message : a.Message
    pub peer : PeerRuntime a D B
    pub received : ReceivedAdvisorySnapshot a D B
    pub admission :
        IsAdmission a decode s.keys s.config (get x s.peers) x now_ms message peer received
    pub new_peers : o.0.peers ≡ insert x peer s.peers
    pub outcome : o.1 ≡ ok (some received)

  Effect-Receives :
      (s : RxSession a D B) (x now : ℕ) (o : Outcome a decode)
      → Effect a decode s x now o
      → Keeps a decode s o ⊎ Receives s x now o
  Effect-Receives s x now o (inl k) = inl k
  Effect-Receives s x now o (inr k) =
      let c =
        admit_message-IsAdmission a {S = S} decode s.keys s.config (get x s.peers) k.over x now
          k.fragment_count k.message k.peer k.received k.admission in
      inr (record {
        message = k.message;
        peer = k.peer;
        received = k.received;
        admission = c;
        new_peers = k.new_peers ∙ ap (λ y. insert y k.peer s.peers) c.source;
        outcome = k.outcome;
      })

  -- A frame yields nothing and leaves every peer as it is, or yields one snapshot by an admission:
  -- authentic, the source's own, in the receive window, and following the source's last state.
  pub ingest_frame-Receives :
      (s : RxSession a D B) (x now : ℕ) (frame : a.Frame)
      → let o = ingest_frame a decode s x now frame in Keeps a decode s o ⊎ Receives s x now o
  ingest_frame-Receives s x now frame =
      Effect-Receives s x now _ (ingest_frame-Effect a decode s x now frame)

  -- Received bytes, also those that do not decode to a frame, yield nothing and leave every peer as
  -- it is, or yield one snapshot: its envelope authentic under the trusted key of the expected
  -- source, the delta that it carries without learned residuals, the snapshot decoded from the
  -- state that this delta makes of the empty state or the source's last, the source's own and in
  -- the receive window, and the source's new state holding it and following its
  -- last one; only that source's peer changes.
  pub ingest_frame_bytes-Receives :
      (s : RxSession a D B) (x now : ℕ) (bytes : List ℕ)
      → let o = ingest_frame_bytes a decode s x now bytes in Keeps a decode s o ⊎ Receives s x now o
  ingest_frame_bytes-Receives s x now bytes =
      Effect-Receives s x now _ (ingest_frame_bytes-Effect a decode s x now bytes)
