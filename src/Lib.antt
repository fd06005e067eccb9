-- ===== src/Lib.antt =====
-- A model of the coordination core of ruv-drone, and theorems on it.
--
-- The program flies a swarm of drones. Its nodes exchange advisory state over a radio
-- (src/latentmesh), elect a cluster head (src/topology/raft.rs) and each run a fail-safe machine
-- (src/failsafe/mod.rs). Before a node transmits, a policy decides which messages are admissible and
-- worth their energy (src/latentmesh/policy.rs); what it transmits is signed, fragmented, reassembled
-- and checked against replay by the two sessions of src/latentmesh/protocol.rs. A node
-- (src/latentmesh/node.rs) joins policy, sessions and metrics; a drone's coordinator
-- (src/orchestrator/mod.rs) steps the fail-safe machine first, then the search (src/planning), and
-- keeps the advisories of its peers apart from what it flies by.
--
-- Types          src/types.rs: positions, drone states and tasks, over two number types.
-- Failsafe       src/failsafe/mod.rs: `tick` as a function of the machine, the sensor readings and
--                the two readings of the clock; `force_land`. Decisions has what a tick decides,
--                Transitions the graph of states.
-- Topology.Raft  src/topology/raft.rs: `RaftNode`, its clock (`tick`), messages (`handle_message`)
--                and `try_promote`; a run is any sequence of the three. Invariant, Terms, Log, Votes
--                and Elections have its properties.
-- Topology.Mesh  src/topology/mesh.rs: `MeshTopology`, with what `nearest_k` returns in Mesh.Nearest.
-- Topology.Gossip  src/topology/gossip.rs: `GossipState` and its `merge`, `bump` and `spread`.
-- Latentmesh.Policy  src/latentmesh/policy.rs: Gate has the capability gate (`authorize`), Traffic
--                the data of the delivery policy, Delivery `evaluate`, Schedule `schedule`; Admission,
--                Treatment and Plans have the properties.
-- Latentmesh.Protocol  src/latentmesh/protocol.rs: Types has the data, Transmit the transmit session,
--                Ingress one source's fragments and rate limit, Admit what a complete message must
--                pass, Session the checkpoints, expiry and counters, Receive the entry points.
--                Admitted, Progress, Effects, Reception, History, Limits, Capacity, Rate, Flow, Intake,
--                Throughput, Counting, Sources, Expiry and Sequence have the properties.
-- Latentmesh.State  src/latentmesh/state.rs: Schema has the fields and fail-safe codes, Ranges the
--                checks, Codec `to_critical_state` and `from_critical_state`; Symbols what it uses of
--                the crate's map of symbols. Fields, RoundTrip, Domain and Accepted have the
--                properties.
-- Latentmesh.Metrics  src/latentmesh/metrics.rs: Counters has `LatentMeshMetrics` and its operations,
--                Totals what the counters come to.
-- Latentmesh.Node  src/latentmesh/node.rs: Endpoint has `LatentMeshNode`; Observations, Accounts and
--                Telemetry have its properties, the last with the codec in place.
-- Planning       src/planning/probability_grid.rs: Grid has `ProbabilityGrid`, its scans and its
--                sweep, Grid.Beliefs its probabilities and coverage; Grid.Rows, Grid.Sweep and
--                Grid.Coverage have the properties. src/planning/coverage.rs: Strategy.
-- Orchestrator   src/orchestrator/mod.rs: Node has `SwarmOrchestrator` and what it receives, Step
--                `step` and what it calls; Safety, Cells and Advisories have the properties.
-- Security       Geofence is src/security/geofence.rs with `check`, Geofence.Margins what its results
--                mean; Signer is src/security/mavlink_signing.rs with `sign` and `verify`, Signer.Window
--                what it verifies.
-- Allocation     src/allocation/auction.rs: Auction has `AuctionAllocator`, Auction.Awards the least
--                bids and Auction.Resolved what `resolve` does.
-- Latentmesh.Air  what these files use of the crates latentmesh_air_core and ed25519_dalek: frames,
--                reassembly, envelopes, deltas, hashes, signatures and replay windows.
-- Base           lists, tests, results, ordered maps, sorting, machine words and floats.
--
-- An operation that mutates its object returns the new object, also where it fails; an early return
-- is an error value. Sessions that own several maps are records of ordered lists with distinct keys
-- inserted in order, as a BTreeMap iterates.
--
-- Numbers are natural numbers. `saturating_add` and its like saturate at the largest u64; casts to
-- u16 and u32 wrap, and so do the additions of src/topology. Floats are a type `W` with the
-- operations that the code uses; their laws, the order of the finite ones, are the hypothesis
-- `IsOrdered`, which the type Fixed of millionths meets; a NaN is the value that is not `<=`
-- itself. Decimal literals are a mantissa and a count of decimal places. The clock is an input.
--
-- HMAC-SHA256 is a parameter of the signer, and the sort of distances one of the mesh view. The
-- radio and signature crates are parameters (`Air`, `AirTx`) of which nothing is assumed; the tests
-- put a small radio in their place. The sessions and the node take the state codec of
-- src/latentmesh/state.rs as an argument, which Latentmesh.Node.Telemetry fills. Of the crate's map
-- of symbols the hypothesis `IsFieldMap` has that a field reads back. No definition of the code
-- needs fuel: every loop of it runs over a list. `sweep` takes a number of steps, of which as many
-- as there are unscanned cells are enough. Of a step of the orchestrator the payload's scan is an
-- input, and the optional features ruforecast and ruflo are off. Cells are read and written inside
-- their grid, where the code indexes its rows.
--
-- Not modelled: sockets and files, the neural networks and their training, sensing, path planning,
-- formation control and the anti-jamming, remote-identity and UWB checks on floats, forecasts,
-- simulators, bindings to flight controllers, and the programs built on the library.
pub mod Allocation
pub mod Base
pub mod Failsafe
pub mod Latentmesh
pub mod Orchestrator
pub mod Planning
pub mod Security
pub mod Topology
pub mod Types
