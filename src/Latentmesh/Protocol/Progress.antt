-- ===== src/Latentmesh/Protocol/Progress.antt =====
-- How an admitted message of src/latentmesh/protocol.rs moves its peer forward.
use ruv_drone.Base.{
  ℕ, ◌+◌, ◌≤◌, ◌<◌, ◌≡◌, refl, subst, ◌⊎◌, Bool, true, false, not, ◌&&◌, Option, none, some,
  is_some, Result, ok, err, arith, reject_if-eq-ok, bind-eq-ok, ok-injective, ◌∙◌, saturating_add,
}
use ruv_drone.Latentmesh.Air.{Air}
use ruv_drone.Latentmesh.Protocol.Types.{
  AdvisoryPeerSnapshot, PeerRuntime, ReceivedAdvisorySnapshot, RxConfig, lift_air, peer_capacity,
}
use ruv_drone.Latentmesh.Protocol.Admit.{
  admit_message, admitted, apply_message, open_message, check_logical, check_replay, check_snapshot,
  check_timestamp, is_keyframe, lift_state, open_delta, open_envelope, select_base,
}
use ruv_drone.Latentmesh.Protocol.Admitted.{IsAuthentic, lift_air-eq-ok, open_envelope-IsAuthentic}

-- The new peer follows the old one: a first message or a later epoch starts at sequence zero with
-- a keyframe; in the same epoch the sequence grows, the time does not fall, and a delta is based
-- on a state that the receiver has.
abbrev pub Follows :
    {a : Air} {D B : Type 0} → Option (PeerRuntime a D B) → PeerRuntime a D B → Bool → Type 0
Follows none p keyframe = (p.last_logical_sequence ≡ 0) × (keyframe ≡ true)
Follows (some q) p keyframe =
    ((q.epoch < p.epoch) × (p.last_logical_sequence ≡ 0) × (keyframe ≡ true))
    ⊎ ((q.epoch ≡ p.epoch)
        × (q.last_logical_sequence < p.last_logical_sequence)
        × (q.last_timestamp_ms ≤ p.last_timestamp_ms)
        × ((keyframe ≡ true) ⊎ ((q.requires_keyframe ≡ false) × (is_some q.critical ≡ true))))

-- The state that a delta applies to: the empty one for a keyframe, else the one that the receiver
-- has of the source in the same epoch.
abbrev pub IsBase :
    {a : Air} {D B : Type 0} → Option (PeerRuntime a D B) → ℕ → Bool → a.Critical → Type 0
IsBase {a} existing epoch true base = base ≡ a.empty_critical
IsBase none epoch false base = ⊥
IsBase (some q) epoch false base = (q.epoch ≡ epoch) × (q.critical ≡ some base)

module _ (a : Air) {S D B : Type 0}
    (decode : a.Critical → Result S (AdvisoryPeerSnapshot D B)) where
  -- What an admission establishes: an authentic envelope whose delta has no learned residuals, a
  -- new critical state that this delta makes of its base, a snapshot that is decoded from it, is
  -- the source's own and lies in the receive window, and a peer that follows the one before.
  pub record IsAdmission (keys : ℕ → Option a.VerifyingKey) (c : RxConfig a)
      (existing : Option (PeerRuntime a D B)) (x now_ms : ℕ) (m : a.Message) (p : PeerRuntime a D B)
      (r : ReceivedAdvisorySnapshot a D B) : Type 0 where
    pub envelope : a.Envelope
    pub authentic : IsAuthentic a keys x m envelope
    pub delta : a.Delta
    pub carried : a.unwrap_delta envelope ≡ ok delta
    pub no_residuals : a.has_residuals delta ≡ false
    pub keyframe :
        r.metadata.keyframe ≡ a.hash_eq (a.base_hash delta) (a.critical_hash a.empty_critical)
    pub base : a.Critical
    pub based : IsBase existing p.epoch r.metadata.keyframe base
    pub source : r.metadata.source_id ≡ x
    pub critical : a.Critical
    pub applied : a.apply delta base ≡ ok critical
    pub decoded : decode critical ≡ ok r.snapshot
    pub kept : (p.critical ≡ some critical) × (p.snapshot ≡ some r.snapshot)
    pub own : r.snapshot.drone.id ≡ x
    pub epoch : (p.epoch ≡ a.epoch envelope) × (r.metadata.epoch ≡ p.epoch)
    pub sequence :
        (p.last_logical_sequence ≡ a.logical_sequence envelope)
        × (r.metadata.logical_sequence ≡ p.last_logical_sequence)
    pub time : p.last_timestamp_ms ≡ r.snapshot.drone.timestamp_ms
    pub not_future : p.last_timestamp_ms ≤ saturating_add now_ms c.max_future_skew_ms
    pub not_old : now_ms ≤ p.last_timestamp_ms + c.max_snapshot_age_ms
    pub follows : Follows existing p r.metadata.keyframe

module _ (a : Air) {S : Type 0} where
  open_delta-residuals :
      (e : a.Envelope) {d : a.Delta}
      → open_delta a {S = S} e ≡ ok d
      → (a.unwrap_delta e ≡ ok d) × (a.has_residuals d ≡ false)
  unfolding open_delta
  open_delta-residuals e h = ground arith

module _ (a : Air) (S : Type 0) {D B : Type 0} where
  -- What the opening of a message establishes.
  record IsOpened (keys : ℕ → Option a.VerifyingKey) (existing : Option (PeerRuntime a D B)) (x : ℕ)
      (m : a.Message) (o : a.Envelope × a.Delta × a.Critical × a.ReplayWindow) : Type 0 where
    authentic : IsAuthentic a keys x m o.0
    clean : (a.unwrap_delta o.0 ≡ ok o.1) × (a.has_residuals o.1 ≡ false)
    based : select_base a {S = S} existing o.0 (is_keyframe a o.1) ≡ ok (o.2, o.3)
    logical : check_logical a {S = S} existing o.0 ≡ ok tt

  -- What the application of a message establishes.
  record IsApplied (decode : a.Critical → Result S (AdvisoryPeerSnapshot D B)) (c : RxConfig a)
      (existing : Option (PeerRuntime a D B)) (now_ms : ℕ) (e : a.Envelope) (d : a.Delta)
      (base critical : a.Critical) (s : AdvisoryPeerSnapshot D B) : Type 0 where
    applied : a.apply d base ≡ ok critical
    decoded : decode critical ≡ ok s
    own : s.drone.id ≡ a.source_id e
    not_future : s.drone.timestamp_ms ≤ saturating_add now_ms c.max_future_skew_ms
    not_old : now_ms ≤ s.drone.timestamp_ms + c.max_snapshot_age_ms
    times : check_timestamp a {S = S} existing e s.drone.timestamp_ms ≡ ok tt

module _ (a : Air) {S : Type 0} where
  lift_state-eq-ok {ℓ} : {T : Type ℓ} (q : Result S T) {t : T} → lift_state a q ≡ ok t → q ≡ ok t
  lift_state-eq-ok (ok t) h = ground arith
  lift_state-eq-ok (err e) h = cc

module _ (a : Air) {S D B : Type 0} where
  select_base-Follows :
      (existing : Option (PeerRuntime a D B)) (e : a.Envelope) (k : Bool) (p : PeerRuntime a D B)
      {base : a.Critical × a.ReplayWindow} {u v : Unit {0}}
      → p.epoch ≡ a.epoch e
      → p.last_logical_sequence ≡ a.logical_sequence e
      → select_base a {S = S} existing e k ≡ ok base
      → check_logical a {S = S} existing e ≡ ok u
      → check_timestamp a {S = S} existing e p.last_timestamp_ms ≡ ok v
      → Follows existing p k
  unfolding select_base check_logical check_timestamp
  select_base-Follows none e k p h1 h2 b l t = ground arith
  select_base-Follows (some q) e k p h1 h2 b l t = ground arith

  select_base-IsBase :
      (existing : Option (PeerRuntime a D B)) (e : a.Envelope) (k : Bool)
      {base : a.Critical × a.ReplayWindow}
      → select_base a {S = S} existing e k ≡ ok base
      → IsBase existing (a.epoch e) k base.0
  unfolding select_base
  select_base-IsBase none e true h = ground arith
  select_base-IsBase none e false h = ground arith
  select_base-IsBase (some q) e true h = ground arith
  select_base-IsBase (some q) e false h = ground arith

  check_snapshot-window :
      (c : RxConfig a) (now_ms : ℕ) (e : a.Envelope) (s : AdvisoryPeerSnapshot D B) {u : Unit {0}}
      → check_snapshot a {S = S} c now_ms e s ≡ ok u
      → (s.drone.id ≡ a.source_id e)
        × (s.drone.timestamp_ms ≤ saturating_add now_ms c.max_future_skew_ms)
        × (now_ms ≤ s.drone.timestamp_ms + c.max_snapshot_age_ms)
  unfolding check_snapshot
  check_snapshot-window c now_ms e s h = ground arith

  open_message-IsOpened :
      (keys : ℕ → Option a.VerifyingKey) (existing : Option (PeerRuntime a D B)) (x : ℕ)
      (m : a.Message) {o : a.Envelope × a.Delta × a.Critical × a.ReplayWindow}
      → open_message a {S = S} keys existing x m ≡ ok o
      → IsOpened a S keys existing x m o
  unfolding open_message
  open_message-IsOpened keys existing x m h =
      let (e, opened, h1) = bind-eq-ok (open_envelope a {S = S} keys x m) _ h in
      let (d, delta, h2) = bind-eq-ok (open_delta a e) _ h1 in
      let (base, based, h3) = bind-eq-ok (select_base a existing e (is_keyframe a d)) _ h2 in
      let (_, _, h4) =
        bind-eq-ok
          (check_replay a (a.classify base.1 (a.message_sequence m)) (a.source_id e) (a.epoch e)) _
          h3 in
      let (_, logical, h5) = bind-eq-ok (check_logical a existing e) _ h4 in
      subst (λ o. IsOpened a S keys existing x m o) (ok-injective h5)
        (record {
          authentic = open_envelope-IsAuthentic a keys x m opened;
          clean = open_delta-residuals a {S = S} e delta;
          based = based;
          logical = logical;
        })

  module _ (decode : a.Critical → Result S (AdvisoryPeerSnapshot D B)) where
    apply_message-IsApplied :
        (c : RxConfig a) (existing : Option (PeerRuntime a D B)) (now_ms : ℕ) (m : a.Message)
        (o : a.Envelope × a.Delta × a.Critical × a.ReplayWindow)
        {n : a.Critical × AdvisoryPeerSnapshot D B × a.ReplayWindow}
        → apply_message a decode c existing now_ms m o ≡ ok n
        → IsApplied a S decode c existing now_ms o.0 o.1 o.2 n.0 n.1
    unfolding apply_message
    apply_message-IsApplied c existing now_ms m (e, d, base, window) h =
        let (result, applied, h1) = bind-eq-ok (lift_air {S = S} (a.apply d base)) _ h in
        let (s, decoded, h2) = bind-eq-ok (lift_state a (decode result)) _ h1 in
        let (_, window', h3) = bind-eq-ok (check_snapshot a c now_ms e s) _ h2 in
        let (_, times, h4) = bind-eq-ok (check_timestamp a existing e s.drone.timestamp_ms) _ h3 in
        let (w, _, h5) = bind-eq-ok (lift_air (a.commit window (a.message_sequence m))) _ h4 in
        let (own, not_future, not_old) = check_snapshot-window c now_ms e s window' in
        subst (λ n. IsApplied a S decode c existing now_ms e d base n.0 n.1) (ok-injective h5)
          (record {
            applied = lift_air-eq-ok a {S = S} _ applied;
            decoded = lift_state-eq-ok a _ decoded;
            own = own;
            not_future = not_future;
            not_old = not_old;
            times = times;
          })

    -- A message that is admitted is authentic and its delta without learned residuals; its snapshot
    -- is decoded from the state that this delta makes of its base, is the source's own and lies in the receive window; and
    -- the source's new peer state holds both and follows the state before it.
    pub admit_message-IsAdmission :
        (keys : ℕ → Option a.VerifyingKey) (c : RxConfig a) (existing : Option (PeerRuntime a D B))
        (over : Bool) (x now_ms n : ℕ) (m : a.Message) (p : PeerRuntime a D B)
        (r : ReceivedAdvisorySnapshot a D B)
        → admit_message a decode keys c existing over x now_ms n m ≡ ok (p, r)
        → IsAdmission a decode keys c existing x now_ms m p r
    unfolding admit_message admitted is_keyframe
    admit_message-IsAdmission keys c existing over x now_ms n m p r h =
        let (o, opened, h1) = bind-eq-ok (open_message a {S = S} keys existing x m) _ h in
        let (t, applied, h2) = bind-eq-ok (apply_message a decode c existing now_ms m o) _ h1 in
        let (_, done) =
          reject_if-eq-ok (not (is_some existing) && over) (peer_capacity c.max_peers) _ h2 in
        let e = open_message-IsOpened keys existing x m opened in
        let s = apply_message-IsApplied c existing now_ms m o applied in
        subst (λ q. IsAdmission a decode keys c existing x now_ms m q.0 q.1) (ok-injective done)
          (record {
            envelope = o.0;
            authentic = e.authentic;
            delta = o.1;
            carried = e.clean.0;
            no_residuals = e.clean.1;
            keyframe = refl;
            base = o.2;
            based = select_base-IsBase existing o.0 (is_keyframe a o.1) e.based;
            source = e.authentic.source;
            critical = t.0;
            applied = s.applied;
            decoded = s.decoded;
            kept = (refl, refl);
            own = s.own ∙ e.authentic.source;
            epoch = (refl, refl);
            sequence = (refl, refl);
            time = refl;
            not_future = s.not_future;
            not_old = s.not_old;
            follows =
                select_base-Follows existing o.0 (is_keyframe a o.1) _ refl refl e.based e.logical
                  s.times;
          })
