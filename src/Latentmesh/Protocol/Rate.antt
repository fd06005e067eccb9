-- ===== src/Latentmesh/Protocol/Rate.antt =====
-- How many frames of one source pass the rate limit of `ingest_decoded_frame` in
-- src/latentmesh/protocol.rs.
use ruv_drone.Base.{
  ℕ, ◌+◌, ◌-◌, ◌*◌, ◌≤◌, ◌<◌, ◌≡◌, ◌⊎◌, inl, inr, refl, Bool, Bool-cases, true, false, not, ◌&&◌,
  ◌==◌, if◌then◌else◌, leb, List, [], ◌∷◌, Option, none, some, Result, ok, err, length, count, All,
  All-imp, arith, u32, u32_max, nat_key, pair_key,
}
use ruv_drone.Base.TreeMap.{insert}
use ruv_drone.Latentmesh.Air.{Air}
use ruv_drone.Latentmesh.Protocol.Types.{
  PeerIngress, ProtocolError, RxConfig, rate_limited, receive_clock_regression,
}
use ruv_drone.Latentmesh.Protocol.Ingress.{
  clear_contexts, expired_contexts, ingest_fragment, push_frame, refresh_ingress, regresses,
  roll_window, settle_push,
}

-- The answer to a frame that has passed the clock and the rate limit.
abbrev pub is_let_through : {E S M : Type 0} → Result (ProtocolError E S) M → Bool
is_let_through (err (rate_limited _)) = false
is_let_through (err (receive_clock_regression _)) = false
is_let_through _ = true

abbrev pub one_if : Bool → ℕ
one_if b = if b then 1 else 0

module _ (a : Air) (S : Type 0) (c : RxConfig a) (x : ℕ) where
  abbrev pub Answer : Type 0
  Answer = Result (ProtocolError a.AirError S) (Option a.Message)

  -- Frames with their reception times, one after the other.
  abbrev pub ingest_each : PeerIngress a → List (ℕ × a.Frame) → List Answer
  ingest_each i [] = []
  ingest_each i ((now, frame) ∷ frames) =
      let (j, answer) = ingest_fragment a {S = S} c x now frame i in answer ∷ ingest_each j frames

  -- A frame that is let through is counted in the window that is open or that it opens.
  abbrev pub Counts : ℕ → PeerIngress a → PeerIngress a × Answer → Type 0
  Counts now i (j, answer) =
      (j.frames_in_window ≤ c.max_frames_per_window)
      × (((j.window_started_ms ≡ i.window_started_ms)
            × (j.frames_in_window ≡ i.frames_in_window + one_if (is_let_through answer)))
          ⊎ ((c.frame_window_ms ≤ now - i.window_started_ms)
              × (j.window_started_ms ≡ now)
              × (j.frames_in_window ≡ one_if (is_let_through answer))))

  clear_contexts-window :
      (ks : List (ℕ × ℕ)) (i : PeerIngress a)
      → ((clear_contexts a ks i).frames_in_window ≡ i.frames_in_window)
        × ((clear_contexts a ks i).window_started_ms ≡ i.window_started_ms)
  unfolding clear_contexts
  clear_contexts-window [] i = (refl, refl)
  clear_contexts-window (k ∷ ks) i = clear_contexts-window ks _

  settle_push-window :
      (is_new : Bool) (key : ℕ × ℕ) (i : PeerIngress a)
      (r : a.Reassembler × Result a.AirError (Option a.Message))
      → let (j, answer) = settle_push a {S = S} is_new key i r in
        (j.frames_in_window ≡ i.frames_in_window)
        × (j.window_started_ms ≡ i.window_started_ms)
        × (is_let_through answer ≡ true)
  unfolding settle_push
  settle_push-window is_new key i (r, err e) = (refl, refl, refl)
  settle_push-window is_new key i (r, ok none) = (refl, refl, refl)
  settle_push-window is_new key i (r, ok (some m)) = (refl, refl, refl)

  push_frame-window :
      (now : ℕ) (frame : a.Frame) (i : PeerIngress a)
      → let (j, answer) = push_frame a {S = S} c now frame i in
        (j.frames_in_window ≡ u32 (i.frames_in_window + 1))
        × (j.window_started_ms ≡ i.window_started_ms)
        × (is_let_through answer ≡ true)
  unfolding push_frame
  push_frame-window now frame i =
      let key : ℕ × ℕ = (a.frame_stream_id frame, a.frame_sequence frame) in
      let is_new = not (a.has_in_flight i.reassembler key.0 key.1) in
      let opened : PeerIngress a = record i {
        frames_in_window = u32 (i.frames_in_window + 1);
        last_received_ms = some now;
        context_started_ms =
            if is_new then insert key now i.context_started_ms else i.context_started_ms;
      } in
      elim (Bool-cases (is_new && length i.context_started_ms == c.reassembly.max_contexts)) [
        | inl full ↦ rw full (refl, refl, refl)
        | inr room ↦ rw room (settle_push-window is_new key opened (a.push i.reassembler frame))
      ]

  refresh_ingress-window :
      (now : ℕ) (i : PeerIngress a)
      → let j = refresh_ingress a c now i in
        ((j.window_started_ms ≡ i.window_started_ms) × (j.frames_in_window ≡ i.frames_in_window))
        ⊎ ((c.frame_window_ms ≤ now - i.window_started_ms)
            × (j.window_started_ms ≡ now)
            × (j.frames_in_window ≡ 0))
  unfolding refresh_ingress roll_window
  refresh_ingress-window now i =
      let (f, w) =
        clear_contexts-window (expired_contexts a now c.reassembly_timeout_ms i.context_started_ms)
          i in
      ground (arith, f, w)

  pub ingest_fragment-Counts :
      (now : ℕ) (frame : a.Frame) (i : PeerIngress a)
      → c.max_frames_per_window ≤ u32_max
      → i.frames_in_window ≤ c.max_frames_per_window
      → Counts now i (ingest_fragment a c x now frame i)
  unfolding ingest_fragment
  ingest_fragment-Counts now frame i u w =
      let j = refresh_ingress a c now i in
      let r = refresh_ingress-window now i in
      elim (Bool-cases (regresses i.last_received_ms now)) [
        | inl e ↦ rw e (w, inl (refl, omega arith))
        | inr e ↦ elim (Bool-cases (leb c.max_frames_per_window j.frames_in_window)) [
          | inl full ↦ rw (e, full) (ground (arith, r, w), ground (arith, r))
          | inr room ↦
              let (f, g, l) = push_frame-window now frame j in
              let below : j.frames_in_window < c.max_frames_per_window = ground (arith, room) in
              rw (e, room) (ground (arith, f, below, u), ground (arith, f, g, l, r, below, u))
        ]
      ]

  count-cons :
      (answer : Answer) (answers : List Answer)
      → count is_let_through (answer ∷ answers)
        ≡ one_if (is_let_through answer) + count is_let_through answers
  count-cons answer answers = elim (Bool-cases (is_let_through answer)) [
    | inl e ↦ ground (arith, e)
    | inr e ↦ ground (arith, e)
  ]

  -- Frames that come before the open window can pass.
  window_count :
      (i : PeerIngress a) (frames : List (ℕ × a.Frame))
      → c.max_frames_per_window ≤ u32_max
      → 0 < c.frame_window_ms
      → i.frames_in_window ≤ c.max_frames_per_window
      → All (λ f. f.0 < i.window_started_ms + c.frame_window_ms) frames
      → count is_let_through (ingest_each i frames) + i.frames_in_window ≤ c.max_frames_per_window
  window_count i [] u p w t = omega (arith, w)
  window_count i ((now, frame) ∷ frames) u p w t =
      let (j, answer) = ingest_fragment a {S = S} c x now frame i in
      let (v, k) = ingest_fragment-Counts now frame i u w in
      elim k [
        | inl (start, counted) ↦
            let rest =
              window_count j frames u p v (All-imp frames (λ f l. omega (arith, l, start)) t.1) in
            omega (arith, count-cons answer (ingest_each j frames), rest, counted)
        | inr (passed, _, _) ↦ absurd (omega (arith, passed, t.0, p))
      ]

  -- In any span of time that is shorter than the window, whatever windows open in it, at most twice
  -- as many frames of one source pass the rate limit as the configuration admits in a window, less
  -- those that the open window has counted before, where that limit is a u32.
  pub ingest_each-count :
      (i : PeerIngress a) (frames : List (ℕ × a.Frame)) (lo : ℕ)
      → c.max_frames_per_window ≤ u32_max
      → i.frames_in_window ≤ c.max_frames_per_window
      → All (λ f. (lo ≤ f.0) × (f.0 < lo + c.frame_window_ms)) frames
      → count is_let_through (ingest_each i frames) + i.frames_in_window
        ≤ 2 * c.max_frames_per_window
  ingest_each-count i [] lo u w t = omega (arith, w)
  ingest_each-count i ((now, frame) ∷ frames) lo u w t =
      let (j, answer) = ingest_fragment a {S = S} c x now frame i in
      let (v, k) = ingest_fragment-Counts now frame i u w in
      elim k [
        | inl (start, counted) ↦
            let rest = ingest_each-count j frames lo u v t.1 in
            omega (arith, count-cons answer (ingest_each j frames), rest, counted)
        | inr (_, start, counted) ↦
            let rest =
              window_count j frames u (omega (arith, t.0.0, t.0.1)) v
                (All-imp frames (λ f l. omega (arith, l.1, start, t.0.0)) t.1) in
            omega (arith, count-cons answer (ingest_each j frames), rest, counted, w)
      ]
