-- ===== src/Lib.antt =====
-- hairpin runs coding agents as jobs: a caller submits a task, a launcher starts a harness for it, the
-- harness dials back and is assigned the task, and its stream of events is recorded until the job ends.
-- The library models the parts that decide what happens to a job, and proves what they promise.
--
-- The parts and their files:
--   * Base: shared names, lists, byte strings, association lists and results.
--   * Job (internal/job/job.go): the record, its statuses, and the session string by which a harness
--     proves which job is its own.
--   * Store (internal/store/store.go, memstore.go): the records that a store keeps. Store/StreamId has the
--     event IDs; Store/Mem the in-memory store with its jobs, Timeline (append, read, watch), Listing
--     (pages) and Permissions. Store/Mem/Valid and Runs have its invariant.
--     Timeline/Watching and Delivery are about watches, Permissions/Keyed and Sorted about requests.
--   * Proto (proto/harness/v1): the messages, as far as the code reads or writes their fields.
--   * Registry (internal/registry/registry.go): which job has a live session.
--   * World: what the goroutines share, that is the store, the registry, the sessions that were closed and
--     what was sent on each, with the clock, the transport and the libraries as the parameter Env.
--     World/Persist and Sending say what an update and a send do.
--   * Lifecycle: every callback that any part hands to the store's UpdateJob, together, so that what
--     is proved of them holds of a job's whole history. Outcome and Coherence have the invariants.
--   * Memory (internal/memory): the memory tools, and the client of Billet's RPC.
--   * Controlplane (internal/controlplane): Settle has the terminal writes of controlplane.go and pump.go,
--     Answer the replies to token and tool requests, Pump the events of a run, Stream runTask; the other
--     children have proofs.
--   * Service (internal/service): service.go and submit.go's launch; Executor the defaults and checks
--     of a run configuration, Submit the submission, and Cancelling, Answering and Launching proofs.
--     Watch follows a timeline, with Replay for a job that has ended and Live for one that has not.
--   * Reaper (internal/reaper/reaper.go): one sweep, with Listing and Sweeping.
--   * Redis (internal/store/redisstore): the store in Redis. Fields is a job as a hash, Jobs the operations on jobs, one
--     command at a time, and Timeline those on events and permission requests. Jobs/Commit is about contention,
--     Jobs/Representation, Quiet, Refinement and Callbacks about a server without it, Timeline/Following about watches.
--   * Launcher (internal/launcher): the Kubernetes Job of a harness. Config (internal/config): what Validate accepts.
--   * TokenIssuer (internal/tokenissuer): the issuer, with Claims for what a token says, behind the pump that answers with
--     it, and Jwks for the key's ID, its document and how it is read.
--   * Api (internal/api) and Web (internal/web): the fronts; Web/Sse the format of the event stream, Web/Pages
--     the handlers, Web/View what the templates are given.
--   * Samples: concrete uses of the theorems.
--
-- How state and time are modelled. A handler is a function of the world. Each reading of the clock and
-- each send is numbered, and Env says what the n-th gives, so it may give anything. The store applies an
-- update in one step, since it runs under the store's mutex; only the launch has errors of the store of its own, since
-- it shares one context with the call of the launcher. A harness's stream is a list of turns: an event
-- comes in, a memory call's goroutine answers, or the stream ends. Where the source reads the clock inside an
-- update's callback, the model reads it just before. Telemetry is left out but for the terminal
-- transitions that are counted, and so are log lines.
--
-- The Redis server is a value of any type with the commands as functions on it. Each command is numbered: the record
-- Client says what other clients do just before the n-th, which keys they touch and whether it fails, and Laws
-- what Redis documents of the commands.
--
-- Bounds. Event IDs and page tokens are 64-bit numbers, and the theorems on them say so. The reaper's loop
-- over the pages takes the number of pages that it may read; one for each job and one more are enough. So does the
-- replay of a timeline, for which the pages that its events fill and one more are enough. UpdateJob on Redis
-- makes the source's 30 attempts. The polls of a Redis watch are counted. All other loops run over lists.
--
-- Not modelled: metrics, traces and log lines; the commands, which are flags and wiring; the generated code; templates and
-- HTTP headers; and what rests on libraries that the repository does not hold (cryptography, client-go, go-redis,
-- protojson), which are parameters.
pub mod Api
pub mod Base
pub mod Config
pub mod Controlplane
pub mod Job
pub mod Launcher
pub mod Lifecycle
pub mod Memory
pub mod Proto
pub mod Reaper
pub mod Redis
pub mod Registry
pub mod Samples
pub mod Service
pub mod Store
pub mod TokenIssuer
pub mod Web
pub mod World
