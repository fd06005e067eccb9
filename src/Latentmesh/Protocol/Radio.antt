-- ===== src/Latentmesh/Protocol/Radio.antt =====
-- A small radio in place of the crates of src/latentmesh/protocol.rs, for the tests. A packet is
-- frame, message, envelope and delta at once; a key is the number that it signs with.
use ruv_drone.Base.{
  ℕ, ◌+◌, false, ltb, ◌==◌, if◌then◌else◌, List, [], ◌∷◌, Option, none, some, Result, ok, err,
  ◌>>=◌, u16,
}
use ruv_drone.Latentmesh.Air.{Air, ReplayDecision, accept, duplicate}
use ruv_drone.Latentmesh.Protocol.Types.{RxConfig, stream_id_for_source}
use ruv_drone.Latentmesh.Protocol.Transmit.{AirTx}

pub record Packet : Type 0 where
  pub source : ℕ
  pub epoch : ℕ
  pub sequence : ℕ
  pub base : ℕ
  pub time : ℕ
  pub signer : ℕ

abbrev pub parse : List ℕ → Result ℕ Packet
parse (x ∷ e ∷ n ∷ b ∷ t ∷ k ∷ []) =
    ok (record { source = x; epoch = e; sequence = n; base = b; time = t; signer = k })
parse _ = err 1

abbrev pub print : Packet → List ℕ
print p = p.source ∷ p.epoch ∷ p.sequence ∷ p.base ∷ p.time ∷ p.signer ∷ []

abbrev pub classified : Option ℕ → ℕ → ReplayDecision
classified none n = accept
classified (some l) n = if ltb l n then accept else duplicate

abbrev pub radio : Air
radio = record {
  AirError = ℕ;
  crc_mismatch? = λ e. e == 2;
  invalid_length = 3;
  reassembly_full = 4;
  Profile = ℕ;
  profile_eq = λ p q. p == q;
  SemanticClass = ℕ;
  class_eq = λ p q. p == q;
  Hash = ℕ;
  hash_eq = λ p q. p == q;
  state_hash_tag = λ h. h;
  Flags = ℕ;
  bits = λ b. b;
  from_bits = λ b. ok b;
  union = λ b c. b + c;
  contains = λ b c. b == c;
  signed_envelope = 8;
  Frame = Packet;
  decode_frame = parse;
  frame_profile = λ p. 0;
  frame_flags = λ p. 8;
  frame_stream_id = λ p. stream_id_for_source p.source;
  frame_sequence = λ p. u16 p.sequence;
  frame_fragment_count = λ p. 1;
  Reassembler = Unit;
  Message = Packet;
  new_reassembler = λ c. ok tt;
  has_in_flight = λ r x n. false;
  clear = λ r x n. r;
  push = λ r p. (r, ok (some p));
  message_bytes = print;
  message_class = λ p. 0;
  message_priority = λ p. 0;
  message_state_tag = λ p. p.time;
  message_stream_id = λ p. stream_id_for_source p.source;
  message_sequence = λ p. u16 p.sequence;
  Envelope = Packet;
  Signature = ℕ;
  VerifyingKey = ℕ;
  decode_envelope = parse;
  source_id = λ p. p.source;
  epoch = λ p. p.epoch;
  message_id = λ p. p.sequence;
  logical_sequence = λ p. p.sequence;
  class = λ p. 0;
  priority = λ p. 0;
  state_hash = λ p. p.time;
  signature = λ p. some p.signer;
  authentication_bytes = λ p. ok (print p);
  verify_strict = λ key bytes signature. key == signature;
  Delta = Packet;
  Critical = ℕ;
  unwrap_delta = λ p. ok p;
  has_residuals = λ p. false;
  base_hash = λ p. p.base;
  result_hash = λ p. p.time;
  apply = λ p c. ok p.time;
  empty_critical = 0;
  critical_hash = λ c. c;
  ReplayWindow = Option ℕ;
  new_window = none;
  classify = classified;
  commit = λ w n. ok (some n);
}

abbrev pub framed : List ℕ → Result ℕ (List Packet)
framed bytes = do p ← parse bytes; ok (p ∷ [])

abbrev pub sender : AirTx radio
sender = record {
  frame_min_bytes = 1;
  frame_max_bytes = 64;
  state_delta = 0;
  between = λ source epoch n base target. ok (record {
    source = source;
    epoch = epoch;
    sequence = n;
    base = base;
    time = target;
    signer = 0;
  });
  wrap_delta = λ d priority n signature. ok d;
  no_signature = 0;
  with_signature = λ k p. record p { signer = k };
  encode_envelope = λ p. ok (print p);
  fragment_message = λ m bytes mtu. framed bytes;
}

abbrev pub config : RxConfig radio
config = record {
  profile = 0;
  transport_flags = 0;
  reassembly = record { max_contexts = 4; max_message_bytes = 64; max_fragments = 4 };
  max_peers = 2;
  max_frames_per_window = 8;
  frame_window_ms = 1_000;
  reassembly_timeout_ms = 500;
  max_snapshot_age_ms = 2_000;
  max_future_skew_ms = 250;
  advisory_ttl_ms = 1_000;
}

-- The packet of drone 3 in its first epoch: a keyframe first, then a delta on it.
abbrev pub packet : ℕ → ℕ → ℕ → Packet
packet n base t = record { source = 3; epoch = 1; sequence = n; base = base; time = t; signer = 3 }
