-- ===== src/Lib.antt =====
-- The verification library of the node: models of its source, translated by hand from src/, and
-- theorems about them. A number is a natural number; where the source uses a bigint it is one as well.
--
-- Sovereign: the network of signed envelopes (src/sovereign).
--   Envelope, Json, Crypto: envelopes, canonical JSON and the check of an envelope (crypto.ts).
--     SHA-256 and Ed25519 are parameters (the record Primitives).
--   Schema: the zod schemas of board.ts as parsers from JSON.
--   Board (Store, Views, Verdict): the task board, the views that are derived from the envelopes it
--     holds, and evaluate. Order, Backed, Votes and Accepted prove what a verdict rests on.
--     Entities has the history of an entity, its announcements and activity, and Chained its hash chain.
--   Ingest: Board.ingest; Puts and Deliver follow a sequence of deliveries.
--   Bundle: proofBundle and verifyProofBundle. Proof is about a bundle that verifies; Replay, Verdicts
--     and RoundTrip are about the board that is made of a bundle.
--   Rewards: computeAccruals of rewards.ts. Ledger: the class Ledger, and simulatePayout.
--   Signing: signEnvelope of crypto.ts; the identity has what Ed25519 makes of a text.
--   Node: the class SovereignNode of node.ts. Peers is the peer table with its file and the node's own
--     address (Kept, Bounded), Limiter the rate limit (Served), Batches the requests of a
--     synchronisation, Objects the file of objects (Restored). Duties decides: Coordinates, Candidates,
--     Assigns and Verifies are about coordinates, candidates and the leases of publisherDuty, and Starts
--     is workerDuty, verifierDuty and runVerify (Due). Sends is emit, with the payloads as JSON (Parsed,
--     Emitted, Counts, Votes). Publisher is publisherDuty, and Conforms the protocol that it keeps to. A
--     clock and random bytes are functions of how many envelopes have been sent; URL is a parameter.
--   Tests: concrete boards, deliveries, ledgers and tables, to which the theorems are applied.
-- Core: the node's own services (src/core).
--   Failover: the class ModelFailover of model-failover.ts (Orders, Runs, Limits).
--   EventBus: the class NodeEventBus of event-bus.ts: its clients, its log, its broadcasts and heartbeat
--     (State, Log, Delivery, Clients, Subscriptions).
-- P2p: Quorum is awaitQuorum of src/p2p/quorum-coordinator.ts: a state, and a step for each
--   attestation received and for the timeout. @ton's addresses, cells and signatures are parameters.
--   In Quorum, Counted: what is held and counts; Sound: an accepted quorum; Endorsed: what the node signs;
--   Rejected: a threshold of one.
--   Peers is the class PeerManager of src/p2p/peers.ts: Table has the entries, Scores the choice of a
--   peer, Startup what start adds. Best is about the choice, Gate and Known about what requests can do.
-- Security: LoginLimit is the class of src/security/login-limit.ts (Lookups, Lockout).
--   Compute has the slots and the maintenance of src/security/compute.ts (Exclusive), and
--   Surface the function nodeSurface of src/security/surface.ts.
-- Support: PlatformHealth is the class of src/lib/platform-health.ts (Backoff).
-- Gateway: Sessions is the class of src/gateway/sessions.ts (Pruned).
-- Training: OfflineQueue is the class of src/training/offline-queue.ts (Claims, Priorities).
-- Swarm: the checks of src/swarm/task-validation.ts; Validation has those of tasks, Reader the bounded
--   reader of a response, on the chunks of its body.
--
-- Loops over finite collections are structural recursions, so no fuel is chosen except in the
-- decimal digits of a number (Sovereign/Json), where the number itself is enough, and in the loop over
-- batches (Sovereign/Node/Batches), where a round for each missing id is enough.
-- Common/Maps and Common/Slices have the maps and the slices of lists. Common/LineFiles is a file of
-- JSON objects, one on each line, as src/sovereign writes and reads it: a line is the pieces of text
-- that were written on it, so that what a crash cut off and what was appended to it share a line.
-- Not modelled: I/O, timers, the scheduler of src/core/scheduler.ts,
--   HTTP, cryptography, the messengers, and the services of others.
--
-- Common has the shared names, lists, sorting and texts.
pub mod Common
pub mod Core
pub mod Gateway
pub mod P2p
pub mod Security
pub mod Sovereign
pub mod Support
pub mod Swarm
pub mod Training
