-- ===== src/Latentmesh/Metrics/Totals.antt =====
-- The counters of src/latentmesh/metrics.rs, whatever the interleaving of the atomic updates.
use mathlib.Core.List.{Perm, Permᴰ}
use mathlib.Core.Logic.{∥∥₁_elim}
use native.Mathlib.Nat.{ℕ_set}
use ruv_drone.Base.{
  ℕ, ◌+◌, ◌≡◌, refl, ◌∙◌, ap, subst, ◌==◌, if◌then◌else◌, List, [], ◌∷◌, ◌++◌, arith, saturate_u64,
  saturating_add,
}
use ruv_drone.Latentmesh.Policy.Gate.{PolicyDropReason}
use ruv_drone.Latentmesh.Metrics.Counters.{
  Counter, DropCounter, LatentMeshMetrics, add, authentication_drops, classify_drop, drop_counter,
  is_residual, load, new, policy_drops, reassembled_fragments, reassemblies_completed,
  reassembly_failures, received_logical_bytes, received_messages, received_wire_bytes, record_drop,
  record_policy_drop, record_reassembly_completed, record_reassembly_failure, record_receive,
  record_residual_suppressed, record_send, replay_drops, residual_suppressions, sent_logical_bytes,
  sent_messages, sent_wire_bytes, stale_drops,
}

-- What a node reports to its metrics.
pub data Event : Type 0 where
  sent received : (logical_bytes wire_bytes : ℕ) → Event
  dropped : DropCounter → Event
  refused : PolicyDropReason → Event
  reassembled : (fragment_count : ℕ) → Event
  reassembly_failed suppressed : Event

unfoldable pub record_event : Event → LatentMeshMetrics → LatentMeshMetrics
record_event (sent l w) m = record_send l w m
record_event (received l w) m = record_receive l w m
record_event (dropped kind) m = record_drop kind m
record_event (refused reason) m = record_policy_drop reason m
record_event (reassembled n) m = record_reassembly_completed n m
record_event reassembly_failed m = record_reassembly_failure m
record_event suppressed m = record_residual_suppressed m

unfoldable pub record_all : List Event → LatentMeshMetrics → LatentMeshMetrics
record_all [] m = m
record_all (e ∷ es) m = record_all es (record_event e m)

-- The atomic updates of an event, in program order.
abbrev pub updates : Event → List (Counter × ℕ)
updates (sent l w) = (sent_messages, 1) ∷ (sent_logical_bytes, l) ∷ (sent_wire_bytes, w) ∷ []
updates (received l w) =
    (received_messages, 1) ∷ (received_logical_bytes, l) ∷ (received_wire_bytes, w) ∷ []
updates (dropped kind) = (drop_counter kind, 1) ∷ []
updates (refused reason) =
    (drop_counter (classify_drop reason), 1)
    ∷ (if is_residual reason then (residual_suppressions, 1) ∷ [] else [])
updates (reassembled n) = (reassemblies_completed, 1) ∷ (reassembled_fragments, n) ∷ []
updates reassembly_failed = (reassembly_failures, 1) ∷ []
updates suppressed = (residual_suppressions, 1) ∷ []

unfoldable pub update_all : List (Counter × ℕ) → LatentMeshMetrics → LatentMeshMetrics
update_all [] m = m
update_all ((c, n) ∷ l) m = update_all l (add c n m)

abbrev pub all_updates : List Event → List (Counter × ℕ)
all_updates [] = []
all_updates (e ∷ es) = updates e ++ all_updates es

-- What an event is worth to a counter.
abbrev pub dropped_as : Counter → DropCounter → ℕ
dropped_as authentication_drops DropCounter.authentication = 1
dropped_as replay_drops DropCounter.replay = 1
dropped_as stale_drops DropCounter.stale = 1
dropped_as policy_drops DropCounter.policy = 1
dropped_as _ _ = 0

abbrev pub counted : Counter → Event → ℕ
counted sent_messages (sent l w) = 1
counted sent_logical_bytes (sent l w) = l
counted sent_wire_bytes (sent l w) = w
counted received_messages (received l w) = 1
counted received_logical_bytes (received l w) = l
counted received_wire_bytes (received l w) = w
counted reassemblies_completed (reassembled n) = 1
counted reassembled_fragments (reassembled n) = n
counted reassembly_failures reassembly_failed = 1
counted residual_suppressions suppressed = 1
counted residual_suppressions (refused reason) = if is_residual reason then 1 else 0
counted c (dropped kind) = dropped_as c kind
counted c (refused reason) = dropped_as c (classify_drop reason)
counted c _ = 0

abbrev pub counted_all : Counter → List Event → ℕ
counted_all c [] = 0
counted_all c (e ∷ es) = counted c e + counted_all c es

abbrev position : Counter → ℕ
position sent_messages = 0
position received_messages = 1
position sent_logical_bytes = 2
position sent_wire_bytes = 3
position received_logical_bytes = 4
position received_wire_bytes = 5
position authentication_drops = 6
position replay_drops = 7
position stale_drops = 8
position policy_drops = 9
position reassemblies_completed = 10
position reassembly_failures = 11
position reassembled_fragments = 12
position residual_suppressions = 13

abbrev share : Counter → Counter × ℕ → ℕ
share c (d, n) = if position c == position d then n else 0

abbrev total : Counter → List (Counter × ℕ) → ℕ
total c [] = 0
total c (p ∷ l) = share c p + total c l

load-add :
    (c d : Counter) (n : ℕ) (m : LatentMeshMetrics)
    → load c (add d n m)
      ≡ (if position c == position d then saturating_add (load c m) n else load c m)
unfolding load add
load-add c d n m = ground arith

record_event-update_all :
    (e : Event) (m : LatentMeshMetrics) → record_event e m ≡ update_all (updates e) m
unfolding record_event update_all record_send record_receive record_drop record_policy_drop
    record_reassembly_completed record_reassembly_failure record_residual_suppressed
record_event-update_all (refused reason) m = ground arith
record_event-update_all _ m = refl

update_all-append :
    (l k : List (Counter × ℕ)) (m : LatentMeshMetrics)
    → update_all (l ++ k) m ≡ update_all k (update_all l m)
unfolding update_all
update_all-append [] k m = refl
update_all-append ((c, n) ∷ l) k m = update_all-append l k (add c n m)

record_all-update_all :
    (es : List Event) (m : LatentMeshMetrics) → record_all es m ≡ update_all (all_updates es) m
unfolding record_all update_all
record_all-update_all [] m = refl
record_all-update_all (e ∷ es) m =
    rw
      (
        record_event-update_all e m,
        record_all-update_all es (update_all (updates e) m),
        update_all-append (updates e) (all_updates es) m,
      )
      refl

load-update_all :
    (c : Counter) (l : List (Counter × ℕ)) (m : LatentMeshMetrics) (k : ℕ)
    → load c m ≡ saturate_u64 k
    → load c (update_all l m) ≡ saturate_u64 (k + total c l)
unfolding update_all
load-update_all c [] m k h = ground arith
load-update_all c ((d, n) ∷ l) m k h =
    let e : k + share c (d, n) + total c l ≡ k + total c ((d, n) ∷ l) = omega arith in
    subst (λ t. load c (update_all l (add d n m)) ≡ saturate_u64 t) e
      (load-update_all c l (add d n m) (k + share c (d, n)) (ground (arith, load-add c d n m)))

total-append : (c : Counter) (l k : List (Counter × ℕ)) → total c (l ++ k) ≡ total c l + total c k
total-append c [] k = omega arith
total-append c (p ∷ l) k = omega (arith, total-append c l k)

total-Permᴰ : (c : Counter) {l k : List (Counter × ℕ)} → Permᴰ l k → total c l ≡ total c k
total-Permᴰ c Permᴰ.nil = refl
total-Permᴰ c (Permᴰ.cons {l₁ = l} {l₂ = k} e p) = rw (e) (omega (arith, total-Permᴰ c p))
total-Permᴰ c (Permᴰ.swap e g) = rw (e, g) (omega arith)
total-Permᴰ c (Permᴰ.trans p q) = total-Permᴰ c p ∙ total-Permᴰ c q

total-perm : (c : Counter) {l k : List (Counter × ℕ)} → Perm l k → total c l ≡ total c k
total-perm c p = ∥∥₁_elim p (ℕ_set _ _) (total-Permᴰ c)

total-updates : (c : Counter) (e : Event) → total c (updates e) ≡ counted c e
total-updates c e = ground arith

total-all_updates : (c : Counter) (es : List Event) → total c (all_updates es) ≡ counted_all c es
total-all_updates c [] = refl
total-all_updates c (e ∷ es) =
    omega (
      arith,
      total-append c (updates e) (all_updates es),
      total-updates c e,
      total-all_updates c es,
    )

load-new : (c : Counter) → load c new ≡ 0
unfolding load new
load-new c = ground arith

load-update_new :
    (c : Counter) (l : List (Counter × ℕ)) {n : ℕ}
    → total c l ≡ n
    → load c (update_all l new) ≡ saturate_u64 n
load-update_new c l {n} h =
    let e : 0 + total c l ≡ n = omega (arith, h) in
    subst (λ t. load c (update_all l new) ≡ saturate_u64 t) e
      (load-update_all c l new 0 (load-new c))

-- However the atomic updates of concurrent reports interleave, each counter of fresh metrics ends
-- at the number of its events or the sum of its bytes and fragments, at most u64::MAX; reports one
-- after the other end at the same.
pub load-interleaved :
    (es : List Event) (l : List (Counter × ℕ)) (c : Counter)
    → Perm l (all_updates es)
    → (load c (update_all l new) ≡ saturate_u64 (counted_all c es))
      × (load c (record_all es new) ≡ saturate_u64 (counted_all c es))
load-interleaved es l c p = (
  load-update_new c l (total-perm c p ∙ total-all_updates c es),
  ap (load c) (record_all-update_all es new)
      ∙ load-update_new c (all_updates es) (total-all_updates c es),
)
