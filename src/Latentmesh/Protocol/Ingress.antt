-- ===== src/Latentmesh/Protocol/Ingress.antt =====
-- One source's receive path in src/latentmesh/protocol.rs: the part of `ingest_decoded_frame` that
-- works on its `PeerIngress`. An error returns the ingress as far as it has been changed.
use ruv_drone.Base.{
  ℕ, ◌+◌, ◌&&◌, Bool, false, not, ltb, leb, ◌==◌, if◌then◌else◌, List, [], ◌∷◌, Option, none, some,
  Result, ok, err, ◌>>=◌, length, u32, saturating_sub, nat_key, pair_key,
}
use ruv_drone.Base.TreeMap
use ruv_drone.Base.TreeMap.{TreeMap, insert, remove}
use ruv_drone.Latentmesh.Air.{Air, ReassemblerConfig}
use ruv_drone.Latentmesh.Protocol.Types.{
  PeerIngress, ProtocolError, RxConfig, air, rate_limited, receive_clock_regression,
}

-- `last.is_some_and(|last| now < last)`.
abbrev pub regresses : Option ℕ → ℕ → Bool
regresses none now = false
regresses (some last) now = ltb now last

module _ (a : Air) where
  unfoldable pub new_ingress : ReassemblerConfig → ℕ → Result a.AirError (PeerIngress a)
  new_ingress config now_ms = do
    r ← a.new_reassembler config
    ok (record {
      reassembler = r;
      context_started_ms = TreeMap.empty;
      last_received_ms = none;
      window_started_ms = now_ms;
      frames_in_window = 0;
    })

  -- The keys of the contexts that were started too long ago.
  unfoldable pub expired_contexts : ℕ → ℕ → TreeMap (ℕ × ℕ) ℕ → List (ℕ × ℕ)
  expired_contexts now_ms timeout [] = []
  expired_contexts now_ms timeout ((key, started) ∷ m) =
      let rest = expired_contexts now_ms timeout m in
      if ltb timeout (saturating_sub now_ms started) then key ∷ rest else rest

  unfoldable pub clear_contexts : List (ℕ × ℕ) → PeerIngress a → PeerIngress a
  clear_contexts [] i = i
  clear_contexts (k ∷ ks) i = clear_contexts ks (record i {
    reassembler = a.clear i.reassembler k.0 k.1;
    context_started_ms = remove k i.context_started_ms;
  })

  unfoldable pub roll_window : RxConfig a → ℕ → PeerIngress a → PeerIngress a
  roll_window c now_ms i =
      if leb c.frame_window_ms (saturating_sub now_ms i.window_started_ms)
      then record i { window_started_ms = now_ms; frames_in_window = 0 }
      else i

  -- The contexts that have expired go, and a window that has passed starts anew.
  unfoldable pub refresh_ingress : RxConfig a → ℕ → PeerIngress a → PeerIngress a
  unfolding roll_window
  refresh_ingress c now_ms i =
      roll_window c now_ms
        (clear_contexts (expired_contexts now_ms c.reassembly_timeout_ms i.context_started_ms) i)

  module _ {S : Type 0} where
    -- What a push makes of the ingress: the context closes when its message is complete, and one
    -- that was opened for a frame that failed is closed again.
    unfoldable pub settle_push :
        Bool
        → ℕ × ℕ
        → PeerIngress a
        → a.Reassembler × Result a.AirError (Option a.Message)
        → PeerIngress a × Result (ProtocolError a.AirError S) (Option a.Message)
    settle_push is_new key i (r, err e) = (
      record i {
        reassembler = r;
        context_started_ms =
            if is_new then remove key i.context_started_ms else i.context_started_ms;
      },
      err (air e),
    )
    settle_push is_new key i (r, ok none) = (record i { reassembler = r }, ok none)
    settle_push is_new key i (r, ok (some m)) = (
      record i { reassembler = r; context_started_ms = remove key i.context_started_ms },
      ok (some m),
    )

    -- From the rate limit on.
    unfoldable pub push_frame :
        RxConfig a
        → ℕ
        → a.Frame
        → PeerIngress a
        → PeerIngress a × Result (ProtocolError a.AirError S) (Option a.Message)
    unfolding settle_push
    push_frame c now_ms frame i0 =
        let i = record i0 {
          frames_in_window = u32 (i0.frames_in_window + 1);
          last_received_ms = some now_ms;
        } in
        let key : ℕ × ℕ = (a.frame_stream_id frame, a.frame_sequence frame) in
        let is_new = not (a.has_in_flight i.reassembler key.0 key.1) in
        let opened = record i {
          context_started_ms =
              if is_new then insert key now_ms i.context_started_ms else i.context_started_ms;
        } in
        if is_new && length i.context_started_ms == c.reassembly.max_contexts
        then (i, err (air a.reassembly_full))
        else settle_push is_new key opened (a.push opened.reassembler frame)

    unfoldable pub ingest_fragment :
        RxConfig a
        → ℕ
        → ℕ
        → a.Frame
        → PeerIngress a
        → PeerIngress a × Result (ProtocolError a.AirError S) (Option a.Message)
    unfolding refresh_ingress push_frame
    ingest_fragment c source now_ms frame i =
        let j = refresh_ingress c now_ms i in
        if regresses i.last_received_ms now_ms
        then (i, err (receive_clock_regression source))
        else if leb c.max_frames_per_window j.frames_in_window
        then (j, err (rate_limited source))
        else push_frame c now_ms frame j
