-- ===== src/Latentmesh/Protocol/Limits.antt =====
-- The bounds of a source's receive path in src/latentmesh/protocol.rs: frames in a window, and
-- contexts under reassembly.
use ruv_drone.Base.{
  ℕ, ◌+◌, ◌≤◌, ◌<◌, ◌==◌, not, ◌&&◌, if◌then◌else◌, ◌≡◌, subst, inl, inr, Bool, Bool-cases, leb,
  List, [], ◌∷◌, Option, none, some, Result, ok, err, bind-eq-ok, ok-injective, arith, length, u32,
  nat_key, pair_key,
}
use ruv_drone.Base.TreeMap.{insert}
use ruv_drone.Base.TreeMap.Laws.{length-insert-le, length-remove-le}
use ruv_drone.Latentmesh.Air.{Air}
use ruv_drone.Latentmesh.Protocol.Types.{PeerIngress, RxConfig}
use ruv_drone.Latentmesh.Protocol.Ingress.{
  clear_contexts, expired_contexts, ingest_fragment, new_ingress, push_frame, refresh_ingress,
  regresses, roll_window, settle_push,
}

module _ (a : Air) where
  -- The frames of the window and the contexts under reassembly are within the configured limits.
  pub record IsWithin (c : RxConfig a) (i : PeerIngress a) : Type 0 where
    pub frames : i.frames_in_window ≤ c.max_frames_per_window
    pub contexts : length i.context_started_ms ≤ c.reassembly.max_contexts

  pub new_ingress-IsWithin :
      (c : RxConfig a) (now : ℕ) {i : PeerIngress a}
      → new_ingress a c.reassembly now ≡ ok i
      → IsWithin c i
  unfolding new_ingress
  new_ingress-IsWithin c now h =
      let (r, _, h1) = bind-eq-ok (a.new_reassembler c.reassembly) _ h in
      subst (λ i. IsWithin c i) (ok-injective h1)
        (record { frames = ground arith; contexts = ground arith })

  clear_contexts-IsWithin :
      (c : RxConfig a) (ks : List (ℕ × ℕ)) (i : PeerIngress a)
      → IsWithin c i
      → IsWithin c (clear_contexts a ks i)
  unfolding clear_contexts
  clear_contexts-IsWithin c [] i w = w
  clear_contexts-IsWithin c (k ∷ ks) i w = clear_contexts-IsWithin c ks _ (record {
    frames = w.frames;
    contexts = omega (arith, length-remove-le k i.context_started_ms, w.contexts);
  })

  refresh_ingress-IsWithin :
      (c : RxConfig a) (now : ℕ) (i : PeerIngress a)
      → IsWithin c i
      → IsWithin c (refresh_ingress a c now i)
  unfolding refresh_ingress roll_window
  refresh_ingress-IsWithin c now i w =
      let j =
        clear_contexts a (expired_contexts a now c.reassembly_timeout_ms i.context_started_ms) i in
      let w' =
        clear_contexts-IsWithin c
          (expired_contexts a now c.reassembly_timeout_ms i.context_started_ms) i w in
      record { frames = ground (arith, w'.frames); contexts = ground (arith, w'.contexts) }

  module _ (S : Type 0) where
    settle_push-IsWithin :
        (c : RxConfig a) (is_new : Bool) (key : ℕ × ℕ) (i : PeerIngress a)
        (r : a.Reassembler × Result a.AirError (Option a.Message))
        → IsWithin c i
        → IsWithin c (settle_push a {S = S} is_new key i r).0
    unfolding settle_push
    settle_push-IsWithin c is_new key i (r, err e) w = record {
      frames = w.frames;
      contexts = ground (arith, length-remove-le key i.context_started_ms, w.contexts);
    }
    settle_push-IsWithin c is_new key i (r, ok none) w = record {
      frames = w.frames;
      contexts = w.contexts;
    }
    settle_push-IsWithin c is_new key i (r, ok (some m)) w = record {
      frames = w.frames;
      contexts = omega (arith, length-remove-le key i.context_started_ms, w.contexts);
    }

    push_frame-IsWithin :
        (c : RxConfig a) (now : ℕ) (frame : a.Frame) (i : PeerIngress a)
        → i.frames_in_window < c.max_frames_per_window
        → IsWithin c i
        → IsWithin c (push_frame a {S = S} c now frame i).0
    unfolding push_frame
    push_frame-IsWithin c now frame i h w =
        let key : ℕ × ℕ = (a.frame_stream_id frame, a.frame_sequence frame) in
        let is_new = not (a.has_in_flight i.reassembler key.0 key.1) in
        let opened : PeerIngress a = record i {
          frames_in_window = u32 (i.frames_in_window + 1);
          last_received_ms = some now;
          context_started_ms =
              if is_new then insert key now i.context_started_ms else i.context_started_ms;
        } in
        let counted : u32 (i.frames_in_window + 1) ≤ c.max_frames_per_window = ground arith in
        elim (Bool-cases (is_new && length i.context_started_ms == c.reassembly.max_contexts)) [
          | inl full ↦ rw full (record { frames = counted; contexts = w.contexts })
          | inr room ↦
              let bounded : length opened.context_started_ms ≤ c.reassembly.max_contexts =
                ground (arith, length-insert-le key now i.context_started_ms, w.contexts) in
              rw room (
                settle_push-IsWithin c is_new key opened (a.push i.reassembler frame)
                  (record { frames = counted; contexts = bounded }))
        ]

    pub ingest_fragment-IsWithin :
        (c : RxConfig a) (x now : ℕ) (frame : a.Frame) (i : PeerIngress a)
        → IsWithin c i
        → IsWithin c (ingest_fragment a {S = S} c x now frame i).0
    unfolding ingest_fragment
    ingest_fragment-IsWithin c x now frame i w =
        let j = refresh_ingress a c now i in
        let w' = refresh_ingress-IsWithin c now i w in
        elim (Bool-cases (regresses i.last_received_ms now)) [
          | inl e ↦ rw e w
          | inr e ↦ elim (Bool-cases (leb c.max_frames_per_window j.frames_in_window)) [
            | inl e' ↦ rw (e, e') w'
            | inr e' ↦ rw (e, e') (push_frame-IsWithin c now frame j (ground arith) w')
          ]
        ]
