-- ===== src/Latentmesh/Protocol/Transmit.antt =====
-- The transmit session of src/latentmesh/protocol.rs. `encode` is `to_critical_state` of
-- src/latentmesh/state.rs, `sign` the session's signer.
use ruv_drone.Base.{
  ℕ, ◌+◌, ◌%◌, ◌||◌, Bool, not, ltb, leb, ◌==◌, if◌then◌else◌, List, Result, ok, err, ◌>>=◌, ◌>>◌,
  reject_if, u16, u32_max, u64_max,
}
use ruv_drone.Types.{DroneState}
use ruv_drone.Failsafe.{FailSafeState}
use ruv_drone.Latentmesh.Air.{Air}
use ruv_drone.Latentmesh.Protocol.Types.{
  ProtocolError, air, invalid_epoch_rotation, lift_air, metadata_mismatch, sequence_exhausted,
  source_mismatch, stream_id_for_source,
}
use ruv_drone.Latentmesh.Protocol.Admit.{lift_state}

-- `u64::is_multiple_of`.
abbrev pub is_multiple_of : ℕ → ℕ → Bool
is_multiple_of n k = if k == 0 then n == 0 else n % k == 0

-- What is sent of a message beside its bytes (`FragmentMeta`).
pub record FragmentMeta (a : Air) : Type 0 where
  pub profile : a.Profile
  pub flags : a.Flags
  pub stream_id : ℕ
  pub sequence : ℕ
  pub class : a.SemanticClass
  pub priority : ℕ
  pub state_tag : ℕ

-- What the transmit session uses of the crate `latentmesh_air_core`.
pub record AirTx (a : Air) : Type 0 where
  pub frame_min_bytes : ℕ
  pub frame_max_bytes : ℕ
  pub state_delta : a.SemanticClass
  pub between :
      (source_id epoch message_id : ℕ) → (base target : a.Critical) → Result a.AirError a.Delta
  pub wrap_delta :
      a.Delta → (priority logical_sequence : ℕ) → a.Signature → Result a.AirError a.Envelope
  pub no_signature : a.Signature
  pub with_signature : a.Signature → a.Envelope → a.Envelope
  pub encode_envelope : a.Envelope → Result a.AirError (List ℕ)
  pub fragment_message : FragmentMeta a → List ℕ → (mtu : ℕ) → Result a.AirError (List a.Frame)

pub record TxConfig (a : Air) : Type 0 where
  pub profile : a.Profile
  pub frame_mtu : ℕ
  pub priority : ℕ
  pub keyframe_interval : ℕ
  pub transport_flags : a.Flags

pub record TransmitBatch (a : Air) : Type 0 where
  pub source_id : ℕ
  pub epoch : ℕ
  pub message_id : ℕ
  pub logical_sequence : ℕ
  pub wire_sequence : ℕ
  pub state_hash : a.Hash
  pub keyframe : Bool
  pub envelope : a.Envelope
  pub frames : List a.Frame

pub record TxSession (a : Air) (S : Type 0) : Type 0 where
  pub source_id : ℕ
  pub epoch : ℕ
  pub next_logical_sequence : ℕ
  pub last_state : a.Critical
  pub signer : List ℕ → Result (ProtocolError a.AirError S) a.Signature
  pub config : TxConfig a

module _ (a : Air) (x : AirTx a) {S : Type 0} where
  unfoldable pub validate_tx : TxConfig a → Result (ProtocolError a.AirError S) (Unit {0})
  validate_tx c = do
    reject_if (ltb c.frame_mtu x.frame_min_bytes || ltb x.frame_max_bytes c.frame_mtu)
        (air a.invalid_length)
    reject_if (ltb 15 c.priority || c.keyframe_interval == 0) (air a.invalid_length)
    _ ← lift_air (a.from_bits (a.bits c.transport_flags))
    reject_if (a.contains c.transport_flags a.signed_envelope) (metadata_mismatch "transport_flags")

  unfoldable pub new_tx :
      (source_id epoch : ℕ)
      → (List ℕ → Result (ProtocolError a.AirError S) a.Signature)
      → TxConfig a
      → Result (ProtocolError a.AirError S) (TxSession a S)
  unfolding validate_tx
  new_tx source_id epoch signer config = do
    validate_tx config
    ok (record {
      source_id = source_id;
      epoch = epoch;
      next_logical_sequence = 0;
      last_state = a.empty_critical;
      signer = signer;
      config = config;
    })

module _ (a : Air) {S : Type 0} where
  unfoldable pub rotate_epoch :
      TxSession a S → ℕ → TxSession a S × Result (ProtocolError a.AirError S) (Unit {0})
  rotate_epoch s new_epoch =
      if leb new_epoch s.epoch then (s, err (invalid_epoch_rotation s.epoch new_epoch)) else (
        record s { epoch = new_epoch; next_logical_sequence = 0; last_state = a.empty_critical },
        ok tt,
      )

module _ (a : Air) (x : AirTx a) {S : Type 0} where
  -- The envelope of a delta, signed over its own bytes.
  unfoldable pub sign_delta :
      TxSession a S → a.Delta → Result (ProtocolError a.AirError S) a.Envelope
  sign_delta s d = do
    unsigned ← lift_air (x.wrap_delta d s.config.priority s.next_logical_sequence x.no_signature)
    bytes ← lift_air (a.authentication_bytes unsigned)
    signature ← s.signer bytes
    ok (x.with_signature signature unsigned)

  -- The frames that carry an envelope.
  unfoldable pub fragment_envelope :
      TxSession a S → a.Delta → a.Envelope → Result (ProtocolError a.AirError S) (List a.Frame)
  fragment_envelope s d e = do
    bytes ← lift_air (x.encode_envelope e)
    lift_air (
        x.fragment_message
          (record {
            profile = s.config.profile;
            flags = a.union s.config.transport_flags a.signed_envelope;
            stream_id = stream_id_for_source s.source_id;
            sequence = u16 s.next_logical_sequence;
            class = x.state_delta;
            priority = s.config.priority;
            state_tag = a.state_hash_tag (a.result_hash d);
          })
          bytes s.config.frame_mtu)

module _ (a : Air) (x : AirTx a) {S D B : Type 0}
    (encode : DroneState D B → FailSafeState → Result S a.Critical) where
  -- The batch for a state and what it does not commit yet: the state and the next sequence.
  unfoldable pub prepare_batch :
      TxSession a S
      → DroneState D B
      → FailSafeState
      → Result (ProtocolError a.AirError S) (a.Critical × TransmitBatch a)
  prepare_batch s drone failsafe = do
    reject_if (not (drone.id == s.source_id)) (source_mismatch s.source_id drone.id)
    reject_if (ltb u32_max s.next_logical_sequence) sequence_exhausted
    reject_if (leb u64_max s.next_logical_sequence) sequence_exhausted
    target ← lift_state a (encode drone failsafe)
    let keyframe = is_multiple_of s.next_logical_sequence s.config.keyframe_interval
    let base = if keyframe then a.empty_critical else s.last_state
    d ← lift_air (x.between s.source_id s.epoch s.next_logical_sequence base target)
    e ← sign_delta a x s d
    frames ← fragment_envelope a x s d e
    ok (
      target,
      record {
        source_id = s.source_id;
        epoch = s.epoch;
        message_id = s.next_logical_sequence;
        logical_sequence = s.next_logical_sequence;
        wire_sequence = u16 s.next_logical_sequence;
        state_hash = a.result_hash d;
        keyframe = keyframe;
        envelope = e;
        frames = frames;
      },
    )

  -- The commit, where the batch is complete.
  unfoldable pub commit_batch :
      TxSession a S
      → Result (ProtocolError a.AirError S) (a.Critical × TransmitBatch a)
      → TxSession a S × Result (ProtocolError a.AirError S) (TransmitBatch a)
  commit_batch s (err e) = (s, err e)
  commit_batch s (ok (target, batch)) = (
    record s { last_state = target; next_logical_sequence = s.next_logical_sequence + 1 },
    ok batch,
  )

  unfoldable pub encode_advisory_state :
      TxSession a S
      → DroneState D B
      → FailSafeState
      → TxSession a S × Result (ProtocolError a.AirError S) (TransmitBatch a)
  unfolding commit_batch
  encode_advisory_state s drone failsafe = commit_batch s (prepare_batch s drone failsafe)
