-- ===== src/Latentmesh/Protocol/Admitted.antt =====
-- What an admitted message of src/latentmesh/protocol.rs has passed.
use ruv_drone.Base.{
  ℕ, ◌≡◌, subst, true, Option, some, Result, ok, err, ok_or, arith, bind-eq-ok, ok_or-eq-ok, u16,
  List,
}
use ruv_drone.Latentmesh.Air.{Air}
use ruv_drone.Latentmesh.Protocol.Types.{
  ProtocolError, lift_air, signature_required, untrusted_peer, stream_id_for_source,
}
use ruv_drone.Latentmesh.Protocol.Admit.{authenticate, bind_metadata, open_envelope}

module _ (a : Air) where
  -- The envelope is the expected source's own: its outer fields agree with it, and its signature
  -- verifies under the key that is trusted for that source.
  pub record IsAuthentic (keys : ℕ → Option a.VerifyingKey) (x : ℕ) (m : a.Message) (e : a.Envelope)
      : Type 0 where
    pub decoded : a.decode_envelope (a.message_bytes m) ≡ ok e
    pub source : a.source_id e ≡ x
    pub stream : a.message_stream_id m ≡ stream_id_for_source x
    pub sequence : a.message_sequence m ≡ u16 (a.logical_sequence e)
    pub id : a.message_id e ≡ a.logical_sequence e
    pub key : a.VerifyingKey
    pub trusted : keys x ≡ some key
    pub signature : a.Signature
    pub signed : a.signature e ≡ some signature
    pub bytes : List ℕ
    pub covered : a.authentication_bytes e ≡ ok bytes
    pub verified : a.verify_strict key bytes signature ≡ true

  -- A signature over the envelope's bytes that verifies under the key of its source.
  record IsSigned (keys : ℕ → Option a.VerifyingKey) (e : a.Envelope) : Type 0 where
    key : a.VerifyingKey
    trusted : keys (a.source_id e) ≡ some key
    signature : a.Signature
    signed : a.signature e ≡ some signature
    bytes : List ℕ
    covered : a.authentication_bytes e ≡ ok bytes
    verified : a.verify_strict key bytes signature ≡ true

  record IsBound (x : ℕ) (m : a.Message) (e : a.Envelope) : Type 0 where
    source : a.source_id e ≡ x
    stream : a.message_stream_id m ≡ stream_id_for_source (a.source_id e)
    sequence : a.message_sequence m ≡ u16 (a.logical_sequence e)
    id : a.message_id e ≡ a.logical_sequence e

  module _ {S : Type 0} where
    pub lift_air-eq-ok {ℓ} :
        {T : Type ℓ} (r : Result a.AirError T) {t : T} → lift_air {S = S} r ≡ ok t → r ≡ ok t
    lift_air-eq-ok (ok t) h = ground arith
    lift_air-eq-ok (err e) h = cc

    bind_metadata-IsBound :
        (x : ℕ) (m : a.Message) (e : a.Envelope) {u : Unit {0}}
        → bind_metadata a {S = S} x m e ≡ ok u
        → IsBound x m e
    unfolding bind_metadata
    bind_metadata-IsBound x m e h = ground arith

    authenticate-IsSigned :
        (keys : ℕ → Option a.VerifyingKey) (e : a.Envelope) {u : Unit {0}}
        → authenticate a {S = S} keys e ≡ ok u
        → IsSigned keys e
    unfolding authenticate
    authenticate-IsSigned keys e h =
        let missing : ProtocolError a.AirError S = signature_required in
        let (signature, signed, h1) = bind-eq-ok (ok_or (a.signature e) missing) _ h in
        let (key, trusted, h2) =
          bind-eq-ok (ok_or (keys (a.source_id e)) (untrusted_peer (a.source_id e))) _ h1 in
        let (bytes, covered, h3) = bind-eq-ok (lift_air (a.authentication_bytes e)) _ h2 in
        record {
          key = key;
          trusted = ok_or-eq-ok _ _ trusted;
          signature = signature;
          signed = ok_or-eq-ok _ _ signed;
          bytes = bytes;
          covered = lift_air-eq-ok _ covered;
          verified = ground arith;
        }

    pub open_envelope-IsAuthentic :
        (keys : ℕ → Option a.VerifyingKey) (x : ℕ) (m : a.Message) {e : a.Envelope}
        → open_envelope a {S = S} keys x m ≡ ok e
        → IsAuthentic keys x m e
    unfolding open_envelope
    open_envelope-IsAuthentic keys x m {e} h =
        let (e', decoded, h1) =
          bind-eq-ok (lift_air {S = S} (a.decode_envelope (a.message_bytes m))) _ h in
        let (_, bound, h2) = bind-eq-ok (bind_metadata a x m e') _ h1 in
        let (_, signed, h3) = bind-eq-ok (authenticate a keys e') _ h2 in
        let same : e' ≡ e = ground arith in
        let b = bind_metadata-IsBound x m e' bound in
        let s = authenticate-IsSigned keys e' signed in
        subst (λ e''. IsAuthentic keys x m e'') same
          (record {
            decoded = lift_air-eq-ok _ decoded;
            source = b.source;
            stream = rw (← b.source) b.stream;
            sequence = b.sequence;
            id = b.id;
            key = s.key;
            trusted = rw (← b.source) s.trusted;
            signature = s.signature;
            signed = s.signed;
            bytes = s.bytes;
            covered = s.covered;
            verified = s.verified;
          })
