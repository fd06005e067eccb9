-- ===== src/Latentmesh/Metrics/Counters.antt =====
-- The counters of src/latentmesh/metrics.rs and the operations that raise them.
use ruv_drone.Base.{ℕ, Bool, true, false, if◌then◌else◌, saturating_add}
use ruv_drone.Latentmesh.Policy.Gate.{
  PolicyDropReason, deadline_expired, residual_not_validated, stale_input, unauthenticated,
  untrusted_source,
}

pub data DropCounter : Type 0 where
  authentication replay stale policy : DropCounter

-- The atomics of `LatentMeshMetrics`; `snapshot` reads each of them.
pub record LatentMeshMetrics : Type 0 where
  pub sent_messages : ℕ
  pub received_messages : ℕ
  pub sent_logical_bytes : ℕ
  pub sent_wire_bytes : ℕ
  pub received_logical_bytes : ℕ
  pub received_wire_bytes : ℕ
  pub authentication_drops : ℕ
  pub replay_drops : ℕ
  pub stale_drops : ℕ
  pub policy_drops : ℕ
  pub reassemblies_completed : ℕ
  pub reassembly_failures : ℕ
  pub reassembled_fragments : ℕ
  pub residual_suppressions : ℕ

unfoldable pub new : LatentMeshMetrics
new = record {
  sent_messages = 0;
  received_messages = 0;
  sent_logical_bytes = 0;
  sent_wire_bytes = 0;
  received_logical_bytes = 0;
  received_wire_bytes = 0;
  authentication_drops = 0;
  replay_drops = 0;
  stale_drops = 0;
  policy_drops = 0;
  reassemblies_completed = 0;
  reassembly_failures = 0;
  reassembled_fragments = 0;
  residual_suppressions = 0;
}

-- The names of the atomics, for what is passed as a reference to one of them.
pub data Counter : Type 0 where
  sent_messages received_messages sent_logical_bytes : Counter
  sent_wire_bytes received_logical_bytes received_wire_bytes : Counter
  authentication_drops replay_drops stale_drops : Counter
  policy_drops reassemblies_completed reassembly_failures : Counter
  reassembled_fragments residual_suppressions : Counter

-- `counter.load`.
unfoldable pub load : Counter → LatentMeshMetrics → ℕ
load sent_messages m = m.sent_messages
load received_messages m = m.received_messages
load sent_logical_bytes m = m.sent_logical_bytes
load sent_wire_bytes m = m.sent_wire_bytes
load received_logical_bytes m = m.received_logical_bytes
load received_wire_bytes m = m.received_wire_bytes
load authentication_drops m = m.authentication_drops
load replay_drops m = m.replay_drops
load stale_drops m = m.stale_drops
load policy_drops m = m.policy_drops
load reassemblies_completed m = m.reassemblies_completed
load reassembly_failures m = m.reassembly_failures
load reassembled_fragments m = m.reassembled_fragments
load residual_suppressions m = m.residual_suppressions

-- The private `saturating_add` of a counter: one atomic update.
unfoldable pub add : Counter → ℕ → LatentMeshMetrics → LatentMeshMetrics
add sent_messages n m = record m { sent_messages = saturating_add m.sent_messages n }
add received_messages n m = record m { received_messages = saturating_add m.received_messages n }
add sent_logical_bytes n m = record m { sent_logical_bytes = saturating_add m.sent_logical_bytes n }
add sent_wire_bytes n m = record m { sent_wire_bytes = saturating_add m.sent_wire_bytes n }
add received_logical_bytes n m = record m {
  received_logical_bytes = saturating_add m.received_logical_bytes n;
}
add received_wire_bytes n m = record m {
  received_wire_bytes = saturating_add m.received_wire_bytes n;
}
add authentication_drops n m = record m {
  authentication_drops = saturating_add m.authentication_drops n;
}
add replay_drops n m = record m { replay_drops = saturating_add m.replay_drops n }
add stale_drops n m = record m { stale_drops = saturating_add m.stale_drops n }
add policy_drops n m = record m { policy_drops = saturating_add m.policy_drops n }
add reassemblies_completed n m = record m {
  reassemblies_completed = saturating_add m.reassemblies_completed n;
}
add reassembly_failures n m = record m {
  reassembly_failures = saturating_add m.reassembly_failures n;
}
add reassembled_fragments n m = record m {
  reassembled_fragments = saturating_add m.reassembled_fragments n;
}
add residual_suppressions n m = record m {
  residual_suppressions = saturating_add m.residual_suppressions n;
}

unfoldable pub record_send : ℕ → ℕ → LatentMeshMetrics → LatentMeshMetrics
unfolding add
record_send logical_bytes wire_bytes m =
    add sent_wire_bytes wire_bytes (add sent_logical_bytes logical_bytes (add sent_messages 1 m))

unfoldable pub record_receive : ℕ → ℕ → LatentMeshMetrics → LatentMeshMetrics
unfolding add
record_receive logical_bytes wire_bytes m =
    add received_wire_bytes wire_bytes
      (add received_logical_bytes logical_bytes (add received_messages 1 m))

abbrev pub drop_counter : DropCounter → Counter
drop_counter authentication = authentication_drops
drop_counter replay = replay_drops
drop_counter stale = stale_drops
drop_counter policy = policy_drops

unfoldable pub record_drop : DropCounter → LatentMeshMetrics → LatentMeshMetrics
unfolding add
record_drop kind m = add (drop_counter kind) 1 m

unfoldable pub record_reassembly_completed : ℕ → LatentMeshMetrics → LatentMeshMetrics
unfolding add
record_reassembly_completed fragment_count m =
    add reassembled_fragments fragment_count (add reassemblies_completed 1 m)

unfoldable pub record_reassembly_failure : LatentMeshMetrics → LatentMeshMetrics
unfolding add
record_reassembly_failure m = add reassembly_failures 1 m

unfoldable pub record_residual_suppressed : LatentMeshMetrics → LatentMeshMetrics
unfolding add
record_residual_suppressed m = add residual_suppressions 1 m

unfoldable pub classify_drop : PolicyDropReason → DropCounter
classify_drop unauthenticated = authentication
classify_drop untrusted_source = authentication
classify_drop stale_input = stale
classify_drop deadline_expired = stale
classify_drop _ = policy

abbrev pub is_residual : PolicyDropReason → Bool
is_residual residual_not_validated = true
is_residual _ = false

unfoldable pub record_policy_drop : PolicyDropReason → LatentMeshMetrics → LatentMeshMetrics
unfolding record_drop classify_drop record_residual_suppressed
record_policy_drop reason m =
    let counted = record_drop (classify_drop reason) m in
    if is_residual reason then record_residual_suppressed counted else counted
