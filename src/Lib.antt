-- ===== src/Lib.antt =====
-- Verification of ractor, an actor framework: actors (ractor/src/actor) and their process groups
-- (ractor/src/pg.rs), their registries and output ports, the factory (ractor/src/factory), which
-- spreads jobs over a pool of worker actors, and the cluster (ractor_cluster/src), in which nodes
-- authenticate one another, agree on the connection that they keep, and exchange frames over it.
--
-- Actor has Status (actor/actor_cell.rs), Admission (actor/actor_properties.rs: how messages and
-- the drain marker come to an actor's port), Supervision (actor/supervision.rs, and `terminate` of
-- actor/actor_cell.rs) and Registry (registry.rs, registry/pid_registry.rs, and the calls of
-- actor/actor_cell.rs that write them). Groups has the process groups (ractor/src/pg.rs), Port the
-- output ports (ractor/src/port/output.rs) and Serialization the conversions to bytes
-- (ractor/src/serialization.rs). Prelude holds the shared names, lists by native numbers and hash maps as association lists. Factory has
-- a module for each part: Job (job.rs), Retry (the retriable messages of job.rs), Discard
-- (discard.rs), Effects (what goes to the outside), Worker (worker.rs: `WorkerProperties`),
-- Queues (queues.rs), Routing (routing.rs, hash.rs), RateLimit (ratelim.rs) and State
-- (factoryimpl.rs: how the factory handles a job that arrives, one that is done, the end of a
-- worker and another size of the pool, over any queue and router). Cluster has Auth (node/auth.rs, hash.rs:
-- the two ends' state machines), Session (node/node_session.rs: what a session does about a
-- message of the handshake), Sync (node/node_session.rs: what it
-- exchanges with its peer after that), Election (node.rs: `elect_sessions`), Nodes (node.rs: the node server's
-- state and its handler) and Net (net/session.rs: the frames of a connection). Each model keeps the source's function names; an operation
-- takes the state and returns the new one. Tests runs the theorems at concrete inputs.
--
-- How the source is read. An operation takes one `Clock` reading, so all reads of the clocks
-- within one call are the same instant; times are nanoseconds without an upper bound, except
-- where the source converts them. Calls of the discard handler, of the statistics layer, replies
-- to submitters and messages to worker actors are entries of a log, newest first; the discard
-- handler is taken to leave the job that it is shown unchanged. What a worker's mailbox answers
-- to a message is the argument `cast`. The order of an association list stands for the
-- unspecified order of a hash map; keys of jobs have a decidable equality. The loop that sheds
-- the oldest jobs takes as fuel the length of the queue, and is proved to end by its test; so do
-- the loops of State, those of `try_route_next_active_job` with one round more, whose `Outcome` tells a result from a panic and from fuel that is used up.
--
-- In Actor the operations on the word `message_admission` interleave as a schedule says, each a
-- step of one thread: a loop that retries a compare-and-exchange is the step in which it
-- succeeds. The channel of a port stays open. Operations on the supervision tree are atomic, by
-- its lock; the fuel of `terminate` counts the children there are, and is proved to suffice.
--
-- In Registry an operation happens as a whole, and a remote id has one cell at a time. In Port what
-- an actor answers is a function of what it took over the same subscription; a batch is as long as
-- the number of waiting messages that the task reads, which is arbitrary.
--
-- In Groups an operation happens as a whole; whether an actor is stopping is an argument at each
-- point at which a join asks. A name is a value of any type with a decidable equality.
--
-- In Cluster the SHA-256 function, the random challenges, what the node server answers to a
-- session, the comparison of names and the ids of new actors are arguments. Names and addresses
-- are values of any type with a decidable equality, cookies and digests are lists of bytes, and
-- the messages are taken as the protocol decodes them. A session's actor stands as its id. What a
-- handler sends goes into a list, in order. In Net the halves of a stream and the protobuf codec are
-- parameters with the laws of their documentation; the loop of a read takes as fuel the bytes
-- that are asked for, and is proved to end.
--
-- Not modelled: the asynchronous runtime, tracing output, the user's workers and handlers, the
-- update of settings, the pings and the start of the factory actor, monitors of actors
-- and of scopes, the loop in which an actor takes its messages, the sockets, the pings of sessions,
-- the calls that a remote actor has pending, and the other parts of the repository.
pub mod Actor
pub mod Cluster
pub mod Factory
pub mod Groups
pub mod Port
pub mod Prelude
pub mod Serialization
pub mod Tests
