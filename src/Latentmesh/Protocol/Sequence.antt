-- ===== src/Latentmesh/Protocol/Sequence.antt =====
-- The numbers that a transmit session of src/latentmesh/protocol.rs gives its batches.
use ruv_drone.Base.{
  ℕ, ◌+◌, ◌≤◌, ◌<◌, ◌≡◌, refl, ◌⊎◌, inl, inr, List, [], ◌∷◌, Result, ok, err, Bool-cases,
  bind-eq-ok, reject_if-eq-ok, ok-injective, arith, subst, u16, u32_max, u64_max, ltb, leb, ◌==◌,
  not,
}
use ruv_drone.Types.{DroneState}
use ruv_drone.Failsafe.{FailSafeState}
use ruv_drone.Latentmesh.Air.{Air}
use ruv_drone.Latentmesh.Protocol.Types.{ProtocolError, lift_air}
use ruv_drone.Latentmesh.Protocol.Admit.{lift_state}
use ruv_drone.Latentmesh.Protocol.Transmit.{
  AirTx, TransmitBatch, TxSession, commit_batch, encode_advisory_state, is_multiple_of,
  prepare_batch, rotate_epoch, sign_delta, fragment_envelope,
}

-- What a sender does: it sends a state, or starts an epoch.
pub data Sending (D B : Type 0) : Type 0 where
  send : DroneState D B → FailSafeState → Sending D B
  rotate : (new_epoch : ℕ) → Sending D B

module _ (a : Air) where
  -- A batch is the session's own: its source, and one number for message, sequence and wire, which
  -- fits in 32 bits and says whether the batch is a keyframe.
  pub record IsOwn (source interval : ℕ) (b : TransmitBatch a) : Type 0 where
    pub source_id : b.source_id ≡ source
    pub message_id : b.message_id ≡ b.logical_sequence
    pub in_range : b.logical_sequence ≤ u32_max
    pub wire : b.wire_sequence ≡ u16 b.logical_sequence
    pub keyframe : b.keyframe ≡ is_multiple_of b.logical_sequence interval

  -- The batch has the numbers that are next, or starts a later epoch at sequence zero.
  abbrev pub IsNext : (epoch sequence : ℕ) → TransmitBatch a → Type 0
  IsNext e n b =
      ((b.epoch ≡ e) × (b.logical_sequence ≡ n)) ⊎ ((e < b.epoch) × (b.logical_sequence ≡ 0))

  -- Own batches whose numbers follow one another without a gap.
  abbrev pub AreConsecutive : (source interval epoch sequence : ℕ) → List (TransmitBatch a) → Type 0
  AreConsecutive x k e n [] = Unit
  AreConsecutive x k e n (b ∷ bs) =
      IsOwn x k b × IsNext e n b × AreConsecutive x k b.epoch (b.logical_sequence + 1) bs

  AreConsecutive-of_epoch :
      (x k e e' n : ℕ) (bs : List (TransmitBatch a))
      → e < e'
      → AreConsecutive x k e' 0 bs
      → AreConsecutive x k e n bs
  AreConsecutive-of_epoch x k e e' n [] h c = tt
  AreConsecutive-of_epoch x k e e' n (b ∷ bs) h (own, next, rest) = (own, ground arith, rest)

module _ (a : Air) (x : AirTx a) {S D B : Type 0}
    (encode : DroneState D B → FailSafeState → Result S a.Critical) where
  abbrev pub collected :
      Result (ProtocolError a.AirError S) (TransmitBatch a)
      → List (TransmitBatch a)
      → List (TransmitBatch a)
  collected (ok b) bs = b ∷ bs
  collected (err e) bs = bs

  -- The batches that a sender's actions produce.
  unfoldable pub send_all : TxSession a S → List (Sending D B) → List (TransmitBatch a)
  send_all s [] = []
  send_all s (send drone failsafe ∷ os) =
      let (t, r) = encode_advisory_state a x encode s drone failsafe in
      let rest = send_all t os in collected r rest
  send_all s (rotate epoch ∷ os) = send_all (rotate_epoch a s epoch).0 os

  prepare_batch-numbers :
      (s : TxSession a S) (drone : DroneState D B) (failsafe : FailSafeState) {c : a.Critical}
      {b : TransmitBatch a}
      → prepare_batch a x encode s drone failsafe ≡ ok (c, b)
      → IsOwn a s.source_id s.config.keyframe_interval b
        × (b.epoch ≡ s.epoch)
        × (b.logical_sequence ≡ s.next_logical_sequence)
  unfolding prepare_batch
  prepare_batch-numbers s drone failsafe h =
      let (_, h1) = reject_if-eq-ok (not (drone.id == s.source_id)) _ _ h in
      let (small, h2) = reject_if-eq-ok (ltb u32_max s.next_logical_sequence) _ _ h1 in
      let (_, h3) = reject_if-eq-ok (leb u64_max s.next_logical_sequence) _ _ h2 in
      let (target, _, h4) = bind-eq-ok (lift_state a (encode drone failsafe)) _ h3 in
      let (d, _, h5) =
        bind-eq-ok (lift_air (x.between s.source_id s.epoch s.next_logical_sequence _ target)) _
          h4 in
      let (e, _, h6) = bind-eq-ok (sign_delta a x s d) _ h5 in
      let (frames, _, h7) = bind-eq-ok (fragment_envelope a x s d e) _ h6 in
      subst
        (λ r.
          IsOwn a s.source_id s.config.keyframe_interval r.1
          × (r.1.epoch ≡ s.epoch)
          × (r.1.logical_sequence ≡ s.next_logical_sequence))
        (ok-injective h7)
        (
          record {
            source_id = refl;
            message_id = refl;
            in_range = ground arith;
            wire = refl;
            keyframe = refl;
          },
          refl,
          refl,
        )

  commit_batch-AreConsecutive :
      (s : TxSession a S) (drone : DroneState D B) (failsafe : FailSafeState)
      (os : List (Sending D B))
      (r : Result (ProtocolError a.AirError S) (a.Critical × TransmitBatch a))
      → prepare_batch a x encode s drone failsafe ≡ r
      → ((t : TxSession a S)
          → AreConsecutive a t.source_id t.config.keyframe_interval t.epoch t.next_logical_sequence
              (send_all t os))
      → let o = commit_batch a x encode s r in
        AreConsecutive a s.source_id s.config.keyframe_interval s.epoch s.next_logical_sequence
          (collected o.1 (send_all o.0 os))
  unfolding commit_batch
  commit_batch-AreConsecutive s drone failsafe os (err e) h rest = rest s
  commit_batch-AreConsecutive s drone failsafe os (ok (c, b)) h rest =
      let (own, epoch, number) = prepare_batch-numbers s drone failsafe h in
      let t = (commit_batch a x encode s (ok (c, b))).0 in
      (own, inl (epoch, number), rw (epoch, number) (rest t))

  -- The batches of a sender, failed sends and epochs in between, are consecutive: within an epoch
  -- the sequence goes up by one from batch to batch, a later epoch starts at zero, and each batch
  -- carries the session's source, a number below 2^32 and the keyframe flag of that number.
  pub send_all-AreConsecutive :
      (s : TxSession a S) (os : List (Sending D B))
      → AreConsecutive a s.source_id s.config.keyframe_interval s.epoch s.next_logical_sequence
          (send_all s os)
  unfolding send_all encode_advisory_state rotate_epoch
  send_all-AreConsecutive s [] = tt
  send_all-AreConsecutive s (send drone failsafe ∷ os) =
      commit_batch-AreConsecutive s drone failsafe os (prepare_batch a x encode s drone failsafe)
        refl (λ t. send_all-AreConsecutive t os)
  send_all-AreConsecutive s (rotate epoch ∷ os) = elim (Bool-cases (leb epoch s.epoch)) [
    | inl e ↦ rw e (send_all-AreConsecutive s os)
    | inr e ↦ rw e (
        AreConsecutive-of_epoch a s.source_id s.config.keyframe_interval s.epoch epoch
          s.next_logical_sequence _ (ground arith) (send_all-AreConsecutive _ os))
  ]
