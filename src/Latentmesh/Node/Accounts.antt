-- ===== src/Latentmesh/Node/Accounts.antt =====
-- The books of src/latentmesh/node.rs: what its metrics say of the frames that it took in.
use ruv_drone.Base.{
  ℕ, ◌+◌, ◌≡◌, refl, ap, sym, ◌∙◌, Bool, true, false, not, ◌||◌, if◌then◌else◌, List, [], ◌∷◌, ◌++◌,
  Option, none, some, Result, ok, err, arith, saturate_u64, saturating_add, saturating_mul, count,
}
use mathlib.Core.List.Perm
use ruv_drone.Latentmesh.Air.{Air}
use ruv_drone.Latentmesh.Protocol.Types.{
  AdvisoryPeerSnapshot, ProtocolError, air, authentication_failed, checkpoint_rollback,
  keyframe_required, receive_clock_regression, replay, signature_required, snapshot_from_future,
  snapshot_too_old, source_hint_mismatch, stale_epoch, stale_logical, stale_timestamp, too_old,
  untrusted_peer,
}
use ruv_drone.Latentmesh.Protocol.Receive
use ruv_drone.Latentmesh.Protocol.Receive.{Outcome}
use ruv_drone.Latentmesh.Protocol.Transmit.{AirTx}
use ruv_drone.Latentmesh.Metrics.Counters.{
  Counter, DropCounter, LatentMeshMetrics, load, drop_counter, received_messages,
  reassembly_failures, new,
}
use ruv_drone.Latentmesh.Metrics.Totals.{
  Event, all_updates, counted_all, dropped, load-interleaved, received, reassembled,
  reassembly_failed, record_all, record_event, suppressed,
}
use ruv_drone.Latentmesh.Node.Endpoint.{
  LatentMeshNode, VerifiedAdvisory, classify_error, ingest_frame_bytes, is_air_error,
  is_residual_error, settle, record_advisory, record_protocol_drop,
}

abbrev is_kind : DropCounter → DropCounter → Bool
is_kind DropCounter.authentication DropCounter.authentication = true
is_kind DropCounter.replay DropCounter.replay = true
is_kind DropCounter.stale DropCounter.stale = true
is_kind DropCounter.policy DropCounter.policy = true
is_kind _ _ = false

-- The kinds of drops. An error of authentication: no key, no valid signature, or another sender.
-- An error of replay: what the receiver has seen or passed. A stale one: a time out of its window,
-- or a state that needs a keyframe. The rest is policy, among it malformed frames and states.
module _ {A S : Type 0} where
  abbrev pub is_authentication_error : ProtocolError A S → Bool
  is_authentication_error (untrusted_peer _) = true
  is_authentication_error authentication_failed = true
  is_authentication_error signature_required = true
  is_authentication_error (source_hint_mismatch _ _) = true
  is_authentication_error _ = false

  abbrev pub is_replay_error : ProtocolError A S → Bool
  is_replay_error (replay _ _) = true
  is_replay_error (too_old _ _) = true
  is_replay_error (stale_epoch _ _ _) = true
  is_replay_error (stale_logical _ _ _) = true
  is_replay_error (checkpoint_rollback _) = true
  is_replay_error _ = false

  abbrev pub is_stale_error : ProtocolError A S → Bool
  is_stale_error (stale_timestamp _ _ _) = true
  is_stale_error (receive_clock_regression _) = true
  is_stale_error (snapshot_too_old _) = true
  is_stale_error (snapshot_from_future _) = true
  is_stale_error (keyframe_required _ _) = true
  is_stale_error _ = false

  -- The errors that the radio crate returned.
  abbrev pub is_radio_error : ProtocolError A S → Bool
  is_radio_error (air _) = true
  is_radio_error _ = false

  abbrev pub is_of_kind : DropCounter → ProtocolError A S → Bool
  is_of_kind DropCounter.authentication e = is_authentication_error e
  is_of_kind DropCounter.replay e = is_replay_error e
  is_of_kind DropCounter.stale e = is_stale_error e
  is_of_kind DropCounter.policy e =
      not (is_authentication_error e || is_replay_error e || is_stale_error e)

  -- The code's own classification says the same.
  classify_error-is_of_kind :
      (k : DropCounter) (e : ProtocolError A S) → is_kind k (classify_error e) ≡ is_of_kind k e
  unfolding classify_error
  classify_error-is_of_kind k e = ground arith

counted_all-append :
    (c : Counter) (l k : List Event) → counted_all c (l ++ k) ≡ counted_all c l + counted_all c k
counted_all-append c [] k = omega arith
counted_all-append c (e ∷ l) k = omega (arith, counted_all-append c l k)

module _ (a : Air) (x : AirTx a) {S D B : Type 0}
    (decode : a.Critical → Result S (AdvisoryPeerSnapshot D B)) where
  abbrev pub Answer : Type 0
  Answer = Result (ProtocolError a.AirError S) (Option (VerifiedAdvisory a D B))

  -- Frames with their sources and reception times, one after the other.
  unfoldable pub ingest_all :
      LatentMeshNode a S D B → List (ℕ × ℕ × List ℕ) → LatentMeshNode a S D B × List Answer
  ingest_all n [] = (n, [])
  ingest_all n ((source, now_ms, bytes) ∷ rest) =
      let (m, answer) = ingest_frame_bytes a x decode n source now_ms bytes in
      let (last, answers) = ingest_all m rest in (last, answer ∷ answers)

  -- What an answer is in the books.
  abbrev pub is_snapshot : Answer → Bool
  is_snapshot (ok (some v)) = true
  is_snapshot _ = false

  abbrev pub is_dropped_as : DropCounter → Answer → Bool
  is_dropped_as k (err e) = is_of_kind k e
  is_dropped_as k _ = false

  abbrev pub is_failure : Answer → Bool
  is_failure (err e) = is_radio_error e
  is_failure _ = false

  abbrev events_of : Answer → List Event
  events_of (ok none) = []
  events_of (ok (some v)) =
      let m = v.received.metadata in
      received m.encoded_message_bytes
        (saturating_add m.encoded_message_bytes (saturating_mul m.fragment_count x.frame_min_bytes))
      ∷ reassembled m.fragment_count
      ∷ []
  events_of (err e) =
      dropped (classify_error e)
      ∷ ((if is_residual_error e then suppressed ∷ [] else [])
          ++ (if is_air_error e then reassembly_failed ∷ [] else []))

  abbrev all_events : List Answer → List Event
  all_events [] = []
  all_events (answer ∷ answers) = events_of answer ++ all_events answers

  settle-metrics :
      (n : LatentMeshNode a S D B) (now_ms : ℕ) (o : Outcome a decode)
      → let (m, answer) = settle a x n now_ms o in
        m.metrics ≡ record_all (events_of answer) n.metrics
  unfolding settle record_all record_event record_advisory record_protocol_drop
  settle-metrics n now_ms (r, ok (some v)) = refl
  settle-metrics n now_ms (r, ok none) = refl
  settle-metrics n now_ms (r, err e) = ground arith

  record_all-append :
      (l k : List Event) (m : LatentMeshMetrics)
      → record_all (l ++ k) m ≡ record_all k (record_all l m)
  unfolding record_all
  record_all-append [] k m = refl
  record_all-append (e ∷ l) k m = record_all-append l k (record_event e m)

  ingest_all-metrics :
      (n : LatentMeshNode a S D B) (frames : List (ℕ × ℕ × List ℕ))
      → let (m, answers) = ingest_all n frames in
        m.metrics ≡ record_all (all_events answers) n.metrics
  unfolding ingest_all ingest_frame_bytes record_all
  ingest_all-metrics n [] = refl
  ingest_all-metrics n ((source, now_ms, bytes) ∷ rest) =
      let o = Receive.ingest_frame_bytes a decode n.receiver source now_ms bytes in
      let s = settle a x n now_ms o in
      ingest_all-metrics s.0 rest
      ∙ ap (record_all (all_events (ingest_all s.0 rest).1)) (settle-metrics n now_ms o)
      ∙ sym (record_all-append (events_of s.1) (all_events (ingest_all s.0 rest).1) n.metrics)

  counted_all-all_events :
      (c : Counter) (p : Answer → Bool)
      → ((answer : Answer) → counted_all c (events_of answer) ≡ (if p answer then 1 else 0))
      → (answers : List Answer) → counted_all c (all_events answers) ≡ count p answers
  counted_all-all_events c p h [] = refl
  counted_all-all_events c p h (answer ∷ answers) = ground (
    arith,
    counted_all-append c (events_of answer) (all_events answers),
    h answer,
    counted_all-all_events c p h answers,
  )

  counted-snapshot :
      (answer : Answer)
      → counted_all received_messages (events_of answer) ≡ (if is_snapshot answer then 1 else 0)
  counted-snapshot answer = ground arith

  counted-dropped :
      (k : DropCounter) (answer : Answer)
      → counted_all (drop_counter k) (events_of answer) ≡ (if is_dropped_as k answer then 1 else 0)
  counted-dropped k (ok none) = ground arith
  counted-dropped k (ok (some v)) = ground arith
  counted-dropped k (err e) = ground (arith, classify_error-is_of_kind k e)

  counted-failure :
      (answer : Answer)
      → counted_all reassembly_failures (events_of answer) ≡ (if is_failure answer then 1 else 0)
  counted-failure answer = ground arith

  load-ingest_all :
      (n : LatentMeshNode a S D B) (frames : List (ℕ × ℕ × List ℕ)) (c : Counter)
      (p : Answer → Bool)
      → n.metrics ≡ new
      → ((answer : Answer) → counted_all c (events_of answer) ≡ (if p answer then 1 else 0))
      → let (m, answers) = ingest_all n frames in load c m.metrics ≡ saturate_u64 (count p answers)
  load-ingest_all n frames c p h e =
      let answers = (ingest_all n frames).1 in
      let events = all_events answers in
      ap (load c) (ingest_all-metrics n frames ∙ ap (record_all events) h)
      ∙ (load-interleaved events (all_updates events) c (Perm.refl (all_updates events))).1
      ∙ ap saturate_u64 (counted_all-all_events c p e answers)

  -- After any frames, a new node's metrics count the snapshots that it returned, under each kind of
  -- drop the errors that the list of its errors above names, and the errors of the radio crate as
  -- failed reassemblies; each stops at u64::MAX.
  pub ingest_all-counts :
      (n : LatentMeshNode a S D B) (frames : List (ℕ × ℕ × List ℕ))
      → n.metrics ≡ new
      → let (m, answers) = ingest_all n frames in
        (load received_messages m.metrics ≡ saturate_u64 (count is_snapshot answers))
        × ((k : DropCounter)
            → load (drop_counter k) m.metrics ≡ saturate_u64 (count (is_dropped_as k) answers))
        × (load reassembly_failures m.metrics ≡ saturate_u64 (count is_failure answers))
  ingest_all-counts n frames h = (
    load-ingest_all n frames received_messages is_snapshot h counted-snapshot,
    λ k. load-ingest_all n frames (drop_counter k) (is_dropped_as k) h (counted-dropped k),
    load-ingest_all n frames reassembly_failures is_failure h counted-failure,
  )
