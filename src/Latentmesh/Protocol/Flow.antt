-- ===== src/Latentmesh/Protocol/Flow.antt =====
-- What an operation on a receive session of src/latentmesh/protocol.rs does to the windows of its
-- sources.
use ruv_drone.Base.{
  ℕ, ◌+◌, ◌-◌, ◌≤◌, ◌≡◌, ◌≢◌, refl, sym, ap, ◌∙◌, subst, ◌⊎◌, inl, inr, Bool, Bool-cases, true,
  false, not, ◌&&◌, ◌==◌, Option, none, some, is_some, Option-cases, Result-cases, Result, ok, err,
  ◌>>=◌, reject_if-eq-ok, bind-eq-ok, ok-injective, arith, u32_max, nat_key,
}
use ruv_drone.Base.TreeMap.{contains_key, get, insert}
use ruv_drone.Base.TreeMap.Laws.{get-insert-cases, get-insert_self}
use ruv_drone.Latentmesh.Air.{Air}
use ruv_drone.Latentmesh.Protocol.Types.{
  AdvisoryPeerSnapshot, PeerIngress, PeerRuntime, ProtocolError, ReceivedAdvisorySnapshot, RxConfig,
  RxSession, ingress_unavailable, lift_air, peer_capacity,
}
use ruv_drone.Latentmesh.Protocol.Ingress.{ingest_fragment, new_ingress}
use ruv_drone.Latentmesh.Protocol.Session.{active_source_count, check_frame, open_ingress}
use ruv_drone.Latentmesh.Protocol.Receive.{
  Outcome, admit_complete, count_completed, ingest_checked, ingest_decoded_frame, ingest_decoding,
  ingest_opened, ingest_ready, settle_admission, settle_fragment,
}
use ruv_drone.Latentmesh.Protocol.Admitted.{lift_air-eq-ok}
use ruv_drone.Latentmesh.Protocol.Capacity.{IsLimited, open_ingress-IsLimited}
use ruv_drone.Latentmesh.Protocol.Rate.{Counts, ingest_fragment-Counts, is_let_through, one_if}

-- A frame that is answered without an error.
abbrev pub is_taken : {E T : Type 0} → Result E T → Bool
is_taken (ok t) = true
is_taken (err e) = false

module _ (a : Air) (c : RxConfig a) where
  -- A window that opens: the source had none, or the one that it had can pass.
  abbrev pub Opens : ℕ → Option (PeerIngress a) → Type 0
  Opens now none = Unit
  Opens now (some i) = c.frame_window_ms ≤ now - i.window_started_ms

  abbrev pub GoesOn : Option (PeerIngress a) → PeerIngress a → ℕ → Type 0
  GoesOn none j w = ⊥
  GoesOn (some i) j w =
      (j.window_started_ms ≡ i.window_started_ms) × (i.frames_in_window + w ≤ j.frames_in_window)

  -- `w` frames of a source are taken into its window, or nothing of it changes.
  abbrev pub Charges : ℕ → Option (PeerIngress a) → Option (PeerIngress a) → ℕ → Type 0
  Charges now before none w = (w ≡ 0) × (before ≡ none)
  Charges now before (some j) w =
      ((w ≡ 0) × (before ≡ some j))
      ⊎ ((j.frames_in_window ≤ c.max_frames_per_window)
          × (GoesOn before j w
              ⊎ ((j.window_started_ms ≡ now) × (w ≤ j.frames_in_window) × Opens now before)))

  Charges-same : (now : ℕ) (o : Option (PeerIngress a)) → Charges now o o 0
  Charges-same now none = (refl, refl)
  Charges-same now (some i) = inl (refl, refl)

  -- A window that was only just opened.
  Charges-opened :
      (now : ℕ) (i : PeerIngress a) (o : Option (PeerIngress a)) (w : ℕ)
      → i.window_started_ms ≡ now
      → i.frames_in_window ≡ 0
      → Charges now (some i) o w
      → Charges now none o w
  Charges-opened now i none w s f h = absurd (cc h.1)
  Charges-opened now i (some j) w s f (inl (z, e)) =
      let k : i ≡ j = ground arith in
      let g = ap (λ (q : PeerIngress a). q.frames_in_window) k in
      inr (
        omega (arith, g, f),
        inr (ap (λ (q : PeerIngress a). q.window_started_ms) (sym k) ∙ s, omega (arith, z), tt),
      )
  Charges-opened now i (some j) w s f (inr (m, inl (g, l))) =
      inr (m, inr (g ∙ s, omega (arith, l), tt))
  Charges-opened now i (some j) w s f (inr (m, inr (g, l, q))) = inr (m, inr (g, l, tt))

module _ (a : Air) {S D B : Type 0} (decode : a.Critical → Result S (AdvisoryPeerSnapshot D B))
    (c : RxConfig a) where
  -- One frame of a source: the windows of the others stay, and its own is charged.
  abbrev pub Touches : RxSession a D B → ℕ → ℕ → Outcome a decode → Type 0
  Touches s y now (t, answer) =
      ((z : ℕ) → z ≢ y → get z t.ingress ≡ get z s.ingress)
      × Charges a c now (get y s.ingress) (get y t.ingress) (one_if (is_taken answer))

  settle_admission-ingress :
      (s : RxSession a D B)
      (r : Result (ProtocolError a.AirError S) (PeerRuntime a D B × ReceivedAdvisorySnapshot a D B))
      → (settle_admission a decode s r).0.ingress ≡ s.ingress
  unfolding settle_admission
  settle_admission-ingress s (err e) = refl
  settle_admission-ingress s (ok r) = refl

  one_if-le : (b : Bool) → one_if b ≤ 1
  one_if-le b = ground arith

  settle_fragment-ingress :
      (s : RxSession a D B) (y now n : ℕ)
      (r : PeerIngress a × Result (ProtocolError a.AirError S) (Option a.Message))
      → let (t, answer) = settle_fragment a decode s y now n r in
        (t.ingress ≡ insert y r.0 s.ingress)
        × (one_if (is_taken answer) ≤ one_if (is_let_through r.1))
  unfolding settle_fragment admit_complete
  settle_fragment-ingress s y now n (i, err e) = (refl, omega arith)
  settle_fragment-ingress s y now n (i, ok none) = (refl, omega arith)
  settle_fragment-ingress s y now n (i, ok (some m)) = (
    settle_admission-ingress
        (count_completed a decode (record s { ingress = insert y i s.ingress })) _,
    one_if-le _,
  )

  Counts-Touches :
      (s t : RxSession a D B) (y now : ℕ) (i j : PeerIngress a)
      (r : Result (ProtocolError a.AirError S) (Option a.Message))
      (answer : Result (ProtocolError a.AirError S) (Option (ReceivedAdvisorySnapshot a D B)))
      → get y s.ingress ≡ some i
      → Counts a S c y now i (j, r)
      → t.ingress ≡ insert y j s.ingress
      → one_if (is_taken answer) ≤ one_if (is_let_through r)
      → Touches s y now (t, answer)
  Counts-Touches s t y now i j r answer e (m, k) g l = (
    λ z d. rw g (elim (get-insert-cases z y j s.ingress) [
      | inl (same, _) ↦ absurd (d same)
      | inr kept ↦ kept
    ]),
    rw (e, g, get-insert_self y j s.ingress)
        (inr (
          m,
          elim k [
            | inl (w, f) ↦ inl (w, omega (arith, f, l))
            | inr (p, w, f) ↦ inr (w, omega (arith, f, l), p)
          ],
        )),
  )

  Touches-same :
      (s t : RxSession a D B) (y now : ℕ) (e : ProtocolError a.AirError S)
      → t.ingress ≡ s.ingress
      → Touches s y now (t, err e)
  Touches-same s t y now e h = rw h ((λ z d. refl), Charges-same a c now (get y s.ingress))

  ingest_opened-Touches :
      (s : RxSession a D B) (y now : ℕ) (f : a.Frame) (o : Option (PeerIngress a))
      → get y s.ingress ≡ o
      → c.max_frames_per_window ≤ u32_max
      → IsLimited a c s
      → Touches s y now (ingest_opened a decode s y now f o)
  unfolding ingest_opened
  ingest_opened-Touches s y now f none e u h = Touches-same s s y now (ingress_unavailable y) refl
  ingest_opened-Touches s y now f (some i) e u h =
      let r = ingest_fragment a {S = S} s.config y now f i in
      let (g, l) = settle_fragment-ingress s y now (a.frame_fragment_count f) r in
      let (t, answer) = settle_fragment a decode s y now (a.frame_fragment_count f) r in
      Counts-Touches s t y now i r.0 r.1 answer e
        (subst (λ q. Counts a S c y now i (ingest_fragment a q y now f i)) (sym h.same_config)
          (ingest_fragment-Counts a S c y now f i u ((h.within y i e).frames)))
        g l

  -- A receive path that a source's first frame opens.
  IsOpened : RxSession a D B → RxSession a D B → ℕ → ℕ → Type 0
  IsOpened s t y now =
      (i : PeerIngress a) × (t.ingress ≡ insert y i s.ingress)
      × (get y s.ingress ≡ none)
      × (i.window_started_ms ≡ now)
      × (i.frames_in_window ≡ 0)

  new_ingress-window :
      (q : RxConfig a) (now : ℕ) {i : PeerIngress a}
      → new_ingress a q.reassembly now ≡ ok i
      → (i.window_started_ms ≡ now) × (i.frames_in_window ≡ 0)
  unfolding new_ingress
  new_ingress-window q now h =
      let (r, _, h1) = bind-eq-ok (a.new_reassembler q.reassembly) _ h in
      subst (λ (i : PeerIngress a). (i.window_started_ms ≡ now) × (i.frames_in_window ≡ 0))
        (ok-injective h1) (refl, refl)

  absent-none :
      (y : ℕ) (s : RxSession a D B) → contains_key y s.ingress ≡ false → get y s.ingress ≡ none
  unfolding contains_key
  absent-none y s h = elim (Option-cases (get y s.ingress)) [
    | inl e ↦ e
    | inr (i, e) ↦ absurd (cc (h, ap is_some e))
  ]

  open_ingress-IsOpened :
      (s t : RxSession a D B) (y now : ℕ)
      → open_ingress a {S = S} s y now ≡ ok t
      → (s ≡ t) ⊎ IsOpened s t y now
  unfolding open_ingress IsOpened
  open_ingress-IsOpened s t y now e = elim (Bool-cases (contains_key y s.ingress)) [
    | inl there ↦ inl (ground arith)
    | inr absent ↦
        let full = not (contains_key y s.peers) && active_source_count a s == s.config.max_peers in
        let (_, e') =
          reject_if-eq-ok full (peer_capacity s.config.max_peers) _ (rw (absent, ◌>>=◌) at e) in
        let (i, made, e'') =
          bind-eq-ok (lift_air {S = S} (new_ingress a s.config.reassembly now)) _ e' in
        let (w, f) = new_ingress-window s.config now (lift_air-eq-ok a {S = S} _ made) in
        inr (
          i,
          ap (λ (q : RxSession a D B). q.ingress) (sym (ok-injective e'')),
          absent-none y s absent,
          w,
          f,
        )
  ]

  opened-Touches :
      (s t : RxSession a D B) (y now : ℕ) (o : Outcome a decode)
      → (s ≡ t) ⊎ IsOpened s t y now
      → Touches t y now o
      → Touches s y now o
  unfolding IsOpened
  opened-Touches s t y now o (inl e) h = subst (λ q. Touches q y now o) (sym e) h
  opened-Touches s t y now o (inr (i, g, e, w, f)) (others, charged) = (
    λ z d.
        others z d
        ∙ rw g (elim (get-insert-cases z y i s.ingress) [
          | inl (same, _) ↦ absurd (d same)
          | inr kept ↦ kept
        ]),
    rw e (Charges-opened a c now i _ _ w f (rw (g, get-insert_self y i s.ingress) at charged)),
  )

  ingest_ready-Touches :
      (s : RxSession a D B) (y now : ℕ) (f : a.Frame)
      (r : Result (ProtocolError a.AirError S) (RxSession a D B))
      → open_ingress a s y now ≡ r
      → c.max_frames_per_window ≤ u32_max
      → IsLimited a c s
      → Touches s y now (ingest_ready a decode s y now f r)
  unfolding ingest_ready
  ingest_ready-Touches s y now f (err e) g u h = Touches-same s s y now e refl
  ingest_ready-Touches s y now f (ok t) g u h =
      opened-Touches s t y now (ingest_opened a decode t y now f (get y t.ingress))
        (open_ingress-IsOpened s t y now g)
        (ingest_opened-Touches t y now f (get y t.ingress) refl u
          (open_ingress-IsLimited a decode c s t y now g h))

  pub ingest_decoded_frame-Touches :
      (s : RxSession a D B) (y now : ℕ) (f : a.Frame)
      → c.max_frames_per_window ≤ u32_max
      → IsLimited a c s
      → Touches s y now (ingest_decoded_frame a decode s y now f)
  unfolding ingest_decoded_frame ingest_checked
  ingest_decoded_frame-Touches s y now f u h = elim (Result-cases (check_frame a {S = S} s y f)) [
    | inl (_, e) ↦ rw e (ingest_ready-Touches s y now f (open_ingress a s y now) refl u h)
    | inr (e, k) ↦ rw k (Touches-same s s y now e refl)
  ]

  pub ingest_decoding-Touches :
      (s : RxSession a D B) (y now : ℕ) (r : Result (ProtocolError a.AirError S) a.Frame)
      → c.max_frames_per_window ≤ u32_max
      → IsLimited a c s
      → Touches s y now (ingest_decoding a decode s y now r)
  unfolding ingest_decoding
  ingest_decoding-Touches s y now (err e) u h = Touches-same s s y now e refl
  ingest_decoding-Touches s y now (ok f) u h = ingest_decoded_frame-Touches s y now f u h
