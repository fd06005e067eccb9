-- ===== src/Latentmesh/Protocol/Throughput.antt =====
-- How many frames of a source a receive session of src/latentmesh/protocol.rs takes in a span of
-- time.
use ruv_drone.Base.{
  ℕ, ◌+◌, ◌*◌, ◌≤◌, ◌<◌, ◌≡◌, refl, sym, ap, ◌∙◌, subst, inl, inr, List, [], ◌∷◌, Option, none,
  some, Option-cases, Result, ok, bind-eq-ok, arith, All, u32_max, nat_key,
}
use ruv_drone.Base.TreeMap.{get}
use ruv_drone.Latentmesh.Air.{Air}
use ruv_drone.Latentmesh.Protocol.Types.{
  AdvisoryPeerSnapshot, PeerIngress, RxConfig, RxSession, validate,
}
use ruv_drone.Latentmesh.Protocol.Session.{new}
use ruv_drone.Latentmesh.Protocol.History.{Operation, perform}
use ruv_drone.Latentmesh.Protocol.Capacity.{
  IsLimited, perform-IsLimited, perform_each, perform_each-new,
}
use ruv_drone.Latentmesh.Protocol.Rate.{one_if}
use ruv_drone.Latentmesh.Protocol.Flow.{Charges}
use ruv_drone.Latentmesh.Protocol.Intake.{InSpan, perform-Moves, taken, takes}

-- The frames that the window of a source has counted.
abbrev counted : {a : Air} → Option (PeerIngress a) → ℕ
counted none = 0
counted (some i) = i.frames_in_window

module _ (a : Air) {S D B : Type 0} (decode : a.Critical → Result S (AdvisoryPeerSnapshot D B))
    (c : RxConfig a) where
  -- A frame is taken into the window that is open, since the span ends before it can pass.
  charged_open :
      (lo now w n : ℕ) (i : PeerIngress a) (o : Option (PeerIngress a))
      → lo ≤ i.window_started_ms
      → (lo ≤ now) × (now < lo + c.frame_window_ms)
      → Charges a c now (some i) o w
      → ((j : PeerIngress a)
          → o ≡ some j
          → lo ≤ j.window_started_ms
          → n + j.frames_in_window ≤ c.max_frames_per_window)
      → w + n + i.frames_in_window ≤ c.max_frames_per_window
  charged_open lo now w n i none l span charged rest = absurd (cc charged.1)
  charged_open lo now w n i (some j) l span (inl (z, e)) rest = omega (arith, z, rest i (sym e) l)
  charged_open lo now w n i (some j) l span (inr (m, inl (g, k))) rest =
      omega (arith, k, rest j refl (omega (arith, g, l)))
  charged_open lo now w n i (some j) l span (inr (m, inr (g, k, passed))) rest =
      absurd (omega (arith, passed, l, span.0, span.1))

  open_taken :
      (x lo : ℕ) (s : RxSession a D B) (os : List (Operation a)) (i : PeerIngress a)
      → c.max_frames_per_window ≤ u32_max
      → IsLimited a c s
      → get x s.ingress ≡ some i
      → lo ≤ i.window_started_ms
      → All (InSpan a c x lo) os
      → taken a decode c x s os + i.frames_in_window ≤ c.max_frames_per_window
  open_taken x lo s [] i u h e l t = omega (arith, (h.within x i e).frames)
  open_taken x lo s (o ∷ os) i u h e l t =
      let next = (perform a decode s o).0 in
      let h' = perform-IsLimited a decode c s o h in
      let w = one_if (takes a decode c x s o) in
      elim (perform-Moves a decode c x lo s o u h t.0) [
        | inl (z, same) ↦
            let rest = open_taken x lo next os i u h' (same ∙ e) l t.1 in omega (arith, z, rest)
        | inr (now, from, before, charged) ↦
            charged_open lo now w (taken a decode c x next os) i (get x next.ingress) l
              (from, before) (subst (λ z. Charges a c now z (get x next.ingress) w) e charged)
              (λ j g k. open_taken x lo next os j u h' g k t.1)
      ]

  -- A frame is taken into the window that is open or into one that it opens.
  charged_any :
      (lo now w n : ℕ) (before after : Option (PeerIngress a))
      → lo ≤ now
      → counted before ≤ c.max_frames_per_window
      → Charges a c now before after w
      → n + counted after ≤ 2 * c.max_frames_per_window
      → ((j : PeerIngress a)
          → after ≡ some j
          → lo ≤ j.window_started_ms
          → n + j.frames_in_window ≤ c.max_frames_per_window)
      → w + n + counted before ≤ 2 * c.max_frames_per_window
  charged_any lo now w n before none l b (z, e) r fresh = rw e (omega (arith, z, r))
  charged_any lo now w n before (some j) l b (inl (z, e)) r fresh = rw e (omega (arith, z, r))
  charged_any lo now w n (some i) (some j) l b (inr (m, inl (g, k))) r fresh = omega (arith, k, r)
  charged_any lo now w n none (some j) l b (inr (m, inl k)) r fresh = absurd k
  charged_any lo now w n before (some j) l b (inr (m, inr (g, k, opens))) r fresh =
      omega (arith, k, b, fresh j refl (omega (arith, g, l)))

  counted-le :
      (x : ℕ) (s : RxSession a D B)
      → IsLimited a c s
      → counted (get x s.ingress) ≤ c.max_frames_per_window
  counted-le x s h = elim (Option-cases (get x s.ingress)) [
    | inl e ↦ rw e (omega arith)
    | inr (i, e) ↦ rw e ((h.within x i e).frames)
  ]

  span_taken :
      (x lo : ℕ) (s : RxSession a D B) (os : List (Operation a))
      → c.max_frames_per_window ≤ u32_max
      → IsLimited a c s
      → All (InSpan a c x lo) os
      → taken a decode c x s os + counted (get x s.ingress) ≤ 2 * c.max_frames_per_window
  span_taken x lo s [] u h t = omega (arith, counted-le x s h)
  span_taken x lo s (o ∷ os) u h t =
      let next = (perform a decode s o).0 in
      let h' = perform-IsLimited a decode c s o h in
      let rest = span_taken x lo next os u h' t.1 in
      elim (perform-Moves a decode c x lo s o u h t.0) [
        | inl (z, same) ↦ omega (arith, z, rest, ap (counted) same)
        | inr (now, from, before, charged) ↦
            charged_any lo now (one_if (takes a decode c x s o)) (taken a decode c x next os)
              (get x s.ingress) (get x next.ingress) from (counted-le x s h) charged rest
              (λ j g k. open_taken x lo next os j u h' g k t.1)
      ]

  validate-max : {u : Unit {0}} → validate a {S = S} c ≡ ok u → c.max_frames_per_window ≤ u32_max
  unfolding validate
  validate-max h = ground (arith, h)

  -- A new session after any operations, `before`: over further operations, in which the frames of a
  -- source arrive in a span that is shorter than the window, it takes at most twice as many frames
  -- of that source as the configuration admits in a window, whatever the operations of others.
  pub perform_each-taken :
      (keys : ℕ → Option a.VerifyingKey) (s : RxSession a D B) (before os : List (Operation a))
      (x lo : ℕ)
      → new a {S = S} keys c ≡ ok s
      → All (InSpan a c x lo) os
      → taken a decode c x (perform_each a decode s before) os ≤ 2 * c.max_frames_per_window
  unfolding new
  perform_each-taken keys s before os x lo h t =
      let (_, valid, _) = bind-eq-ok (validate a {S = S} c) _ h in
      omega (
        arith,
        span_taken x lo (perform_each a decode s before) os (validate-max valid)
            (perform_each-new a decode keys c s before h) t,
      )
