-- ===== src/Latentmesh/Metrics/Tests.antt =====
-- Two reports to the metrics of src/latentmesh/metrics.rs whose updates interleave.
use mathlib.Core.List.{Perm, Permᴰ}
use ruv_drone.Base.{ℕ, ◌≡◌, refl, List, [], ◌∷◌, saturate_u64}
use ruv_drone.Latentmesh.Metrics.Counters.{
  Counter, DropCounter, load, new, policy_drops, sent_logical_bytes, sent_messages, sent_wire_bytes,
}
use ruv_drone.Latentmesh.Metrics.Totals.{
  Event, all_updates, counted_all, dropped, load-interleaved, record_all, sent, update_all,
}

abbrev events : List Event
events = sent 10 12 ∷ dropped DropCounter.policy ∷ []

-- The drop is counted between the updates of the send.
abbrev interleaved : List (Counter × ℕ)
interleaved =
    (sent_messages, 1) ∷ (sent_logical_bytes, 10) ∷ (policy_drops, 1) ∷ (sent_wire_bytes, 12) ∷ []

interleaved-perm : Perm interleaved (all_updates events)
interleaved-perm = ∣ Permᴰ.cons refl (Permᴰ.cons refl (Permᴰ.swap refl refl)) ∣₁

load-interleaved_example :
    (load sent_wire_bytes (update_all interleaved new)
      ≡ saturate_u64 (counted_all sent_wire_bytes events))
    × (load sent_wire_bytes (record_all events new)
        ≡ saturate_u64 (counted_all sent_wire_bytes events))
load-interleaved_example = load-interleaved events interleaved sent_wire_bytes interleaved-perm
