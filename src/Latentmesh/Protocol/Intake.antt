-- ===== src/Latentmesh/Protocol/Intake.antt =====
-- The frames that a receive session of src/latentmesh/protocol.rs takes, and their windows.
use ruv_drone.Base.{
  ℕ, ◌+◌, ◌≤◌, ◌<◌, ◌≡◌, ◌≢◌, refl, sym, ap, subst, ◌⊎◌, inl, inr, Bool, Bool-cases, false, ◌&&◌,
  ◌==◌, List, [], ◌∷◌, Result, ok, err, bind-eq-ok, ok-injective, arith, u32_max, nat_key,
}
use ruv_drone.Base.TreeMap.{get}
use ruv_drone.Latentmesh.Air.{Air}
use ruv_drone.Latentmesh.Protocol.Types.{
  AdvisoryPeerSnapshot, ProtocolError, RxConfig, RxSession, lift_air,
}
use ruv_drone.Latentmesh.Protocol.Session.{
  check_checkpoint, expire_stale, restore_replay_checkpoint,
}
use ruv_drone.Latentmesh.Protocol.Receive.{
  Outcome, count_frame, ingest_decoded_frame, ingest_decoding, ingest_frame, ingest_frame_bytes,
  record_outcome,
}
use ruv_drone.Latentmesh.Protocol.History.{
  Operation, accepted, expire, frame, frame_bytes, kept, perform, restore,
}
use ruv_drone.Latentmesh.Protocol.Capacity.{IsLimited, IsLimited-same}
use ruv_drone.Latentmesh.Protocol.Rate.{one_if}
use ruv_drone.Latentmesh.Protocol.Flow.{
  Charges, Touches, ingest_decoded_frame-Touches, ingest_decoding-Touches, is_taken,
}

module _ (a : Air) (c : RxConfig a) where
  -- A frame of the source arrives in the span that a window takes from `lo`; the operations of
  -- other sources may be at any time.
  abbrev pub InSpan : (x lo : ℕ) → Operation a → Type 0
  InSpan x lo (frame y now f) = (y ≢ x) ⊎ ((lo ≤ now) × (now < lo + c.frame_window_ms))
  InSpan x lo (frame_bytes y now bytes) = (y ≢ x) ⊎ ((lo ≤ now) × (now < lo + c.frame_window_ms))
  InSpan x lo (expire now) = Unit
  InSpan x lo (restore k) = Unit

module _ (a : Air) {S D B : Type 0} (decode : a.Critical → Result S (AdvisoryPeerSnapshot D B))
    (c : RxConfig a) where
  -- Whether an operation brings a frame of the source that is answered without an error.
  abbrev pub takes : ℕ → RxSession a D B → Operation a → Bool
  takes x s (frame y now f) = (y == x) && is_taken (ingest_frame a decode s y now f).1
  takes x s (frame_bytes y now bytes) =
      (y == x) && is_taken (ingest_frame_bytes a decode s y now bytes).1
  takes x s (expire now) = false
  takes x s (restore k) = false

  -- The frames of a source that a sequence of operations takes.
  abbrev pub taken : ℕ → RxSession a D B → List (Operation a) → ℕ
  taken x s [] = 0
  taken x s (o ∷ os) = one_if (takes x s o) + taken x (perform a decode s o).0 os

  -- Nothing is taken and the window stays, or the window is charged at a time in the span.
  abbrev pub Moves : ℕ → ℕ → RxSession a D B → RxSession a D B → ℕ → Type 0
  Moves x lo s t w =
      ((w ≡ 0) × (get x t.ingress ≡ get x s.ingress))
      ⊎ ((now : ℕ) × (lo ≤ now)
          × (now < lo + c.frame_window_ms)
          × Charges a c now (get x s.ingress) (get x t.ingress) w)

  Touches-Moves :
      (x lo y now : ℕ) (s t : RxSession a D B) (o : Outcome a decode)
      → (y ≢ x) ⊎ ((lo ≤ now) × (now < lo + c.frame_window_ms))
      → Touches a decode c s y now o
      → t.ingress ≡ o.0.ingress
      → Moves x lo s t (one_if ((y == x) && is_taken o.1))
  Touches-Moves x lo y now s t o span (others, charged) same = elim (Bool-cases (y == x)) [
    | inr e ↦ let other : x ≢ y = ground (arith, e) in rw (e, same) (inl (refl, others x other))
    | inl e ↦
        let k : y ≡ x = ground (arith, e) in
        elim span [
          | inl d ↦ absurd (d k)
          | inr (l, g) ↦
              rw (e, same)
                (inr (
                  now,
                  l,
                  g,
                  subst
                      (λ z.
                        Charges a c now (get z s.ingress) (get z o.0.ingress)
                          (one_if (is_taken o.1)))
                      k charged,
                ))
        ]
  ]

  kept-Moves :
      (x lo : ℕ) (s : RxSession a D B) (r : Result (ProtocolError a.AirError S) (RxSession a D B))
      → ((t : RxSession a D B) → r ≡ ok t → t.ingress ≡ s.ingress)
      → Moves x lo s (kept a decode s r).0 0
  kept-Moves x lo s (ok t) h = inl (refl, ap (get x) (h t refl))
  kept-Moves x lo s (err e) h = inl (refl, refl)

  accepted-session : (o : Outcome a decode) → (accepted a decode o).0 ≡ o.0
  accepted-session (t, ok r) = refl
  accepted-session (t, err e) = refl

  pub perform-Moves :
      (x lo : ℕ) (s : RxSession a D B) (o : Operation a)
      → c.max_frames_per_window ≤ u32_max
      → IsLimited a c s
      → InSpan a c x lo o
      → Moves x lo s (perform a decode s o).0 (one_if (takes x s o))
  unfolding perform ingest_frame ingest_frame_bytes expire_stale restore_replay_checkpoint
  perform-Moves x lo s (frame y now f) u h i =
      let r = ingest_decoded_frame a decode (count_frame a decode s) y now f in
      Touches-Moves x lo y now s (accepted a decode (record_outcome a decode r)).0 r i
        (ingest_decoded_frame-Touches a decode c (count_frame a decode s) y now f u
          (IsLimited-same a c s (count_frame a decode s) h refl refl))
        (ap (λ (q : RxSession a D B). q.ingress) (accepted-session (record_outcome a decode r)))
  perform-Moves x lo s (frame_bytes y now bytes) u h i =
      let l = lift_air {S = S} (a.decode_frame bytes) in
      let r = ingest_decoding a decode (count_frame a decode s) y now l in
      Touches-Moves x lo y now s (accepted a decode (record_outcome a decode r)).0 r i
        (ingest_decoding-Touches a decode c (count_frame a decode s) y now l u
          (IsLimited-same a c s (count_frame a decode s) h refl refl))
        (ap (λ (q : RxSession a D B). q.ingress) (accepted-session (record_outcome a decode r)))
  perform-Moves x lo s (expire now) u h i = inl (refl, refl)
  perform-Moves x lo s (restore k) u h i =
      kept-Moves x lo s (restore_replay_checkpoint a s k) (λ t e.
        let (_, _, done) = bind-eq-ok (check_checkpoint a {S = S} s k) _ e in
        ap (λ (q : RxSession a D B). q.ingress) (sym (ok-injective done)))
