-- ===== src/Latentmesh/Air.antt =====
-- What src/latentmesh uses of the crates `latentmesh_air_core` and `ed25519_dalek`, which are not
-- part of the repository: a parameter of the protocol's model. Nothing is assumed of it here.
use ruv_drone.Base.{ℕ, Bool, List, Option, Result}

-- The outcome of `ReplayWindow::classify`.
pub data ReplayDecision : Type 0 where
  accept duplicate too_old : ReplayDecision

-- The bounds that a `Reassembler` is made with.
pub record ReassemblerConfig : Type 0 where
  pub max_contexts : ℕ
  pub max_message_bytes : ℕ
  pub max_fragments : ℕ

pub record Air : Type 1 where
  pub AirError : Type 0
  pub crc_mismatch? : AirError → Bool
  pub invalid_length : AirError
  pub reassembly_full : AirError
  -- Enumerations and digests that are only compared.
  pub Profile : Type 0
  pub profile_eq : Profile → Profile → Bool
  pub SemanticClass : Type 0
  pub class_eq : SemanticClass → SemanticClass → Bool
  pub Hash : Type 0
  pub hash_eq : Hash → Hash → Bool
  pub state_hash_tag : Hash → ℕ
  -- `FrameFlags`.
  pub Flags : Type 0
  pub bits : Flags → ℕ
  pub from_bits : ℕ → Result AirError Flags
  pub union : Flags → Flags → Flags
  pub contains : Flags → Flags → Bool
  pub signed_envelope : Flags
  -- `SparseRadioFrame`.
  pub Frame : Type 0
  pub decode_frame : List ℕ → Result AirError Frame
  pub frame_profile : Frame → Profile
  pub frame_flags : Frame → Flags
  pub frame_stream_id : Frame → ℕ
  pub frame_sequence : Frame → ℕ
  pub frame_fragment_count : Frame → ℕ
  -- `Reassembler` and `ReassembledMessage`.
  pub Reassembler : Type 0
  pub Message : Type 0
  pub new_reassembler : ReassemblerConfig → Result AirError Reassembler
  pub has_in_flight : Reassembler → ℕ → ℕ → Bool
  pub clear : Reassembler → ℕ → ℕ → Reassembler
  pub push : Reassembler → Frame → Reassembler × Result AirError (Option Message)
  pub message_bytes : Message → List ℕ
  pub message_class : Message → SemanticClass
  pub message_priority : Message → ℕ
  pub message_state_tag : Message → ℕ
  pub message_stream_id : Message → ℕ
  pub message_sequence : Message → ℕ
  -- `SemanticEnvelope` and its signature.
  pub Envelope : Type 0
  pub Signature : Type 0
  pub VerifyingKey : Type 0
  pub decode_envelope : List ℕ → Result AirError Envelope
  pub source_id : Envelope → ℕ
  pub epoch : Envelope → ℕ
  pub message_id : Envelope → ℕ
  pub logical_sequence : Envelope → ℕ
  pub class : Envelope → SemanticClass
  pub priority : Envelope → ℕ
  pub state_hash : Envelope → Hash
  pub signature : Envelope → Option Signature
  pub authentication_bytes : Envelope → Result AirError (List ℕ)
  pub verify_strict : VerifyingKey → List ℕ → Signature → Bool
  -- `SemanticDelta` and `CriticalState`.
  pub Delta : Type 0
  pub Critical : Type 0
  pub unwrap_delta : Envelope → Result AirError Delta
  pub has_residuals : Delta → Bool
  pub base_hash : Delta → Hash
  pub result_hash : Delta → Hash
  pub apply : Delta → Critical → Result AirError Critical
  pub empty_critical : Critical
  pub critical_hash : Critical → Hash
  -- `ReplayWindow`.
  pub ReplayWindow : Type 0
  pub new_window : ReplayWindow
  pub classify : ReplayWindow → ℕ → ReplayDecision
  pub commit : ReplayWindow → ℕ → Result AirError ReplayWindow
