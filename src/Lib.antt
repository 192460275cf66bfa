-- ===== src/Lib.antt =====
-- Porsche, an AI gateway in Go: a verification library of its core.
--
-- The program and its parts. internal/authz decides what an account may do; internal/service holds
-- the business code, of which the platform generations are the centre: a client asks for an answer
-- of one model or of several, the process claims a generation in Redis, streams the answer as
-- server-sent events, and the generation ends as completed, failed or cancelled, also when the
-- client, the process or another process gives up in the middle. Three parts of that meet in every
-- generation: the durable record (platform_generation_store.go and
-- platform_generation_store_control.go), the registry of cancel callbacks of this process
-- (platform_generation_cancel_registry.go), and the encoder of the stream (platform_sse_v2.go).
--
-- The files.
-- Prelude: names of the libraries passed on, Boolean tests on native numbers (Tests), lists (Lists),
--   integers (Int), Go maps with text keys (Dict), tables of a database (Table), and Go's pair of a
--   value and an error (Outcome).
-- Authz: internal/authz. Catalog is catalog.go, Evaluator is evaluator.go with one function per
--   method, Display is admin_display.go. Capability, Construction, Privilege, Scopes and
--   Display/Agreement hold the proofs.
-- Generation/Identity: the tests on identifiers that the generation code shares.
-- Generation/Registry: the cancellation registry. Each critical section is one step on a world of
--   the registry, the release functions handed out, and the callbacks called; closing a channel
--   that is closed or nil has no next world. Calls of CloseAndWait, Register and the others from
--   many goroutines are lists of steps. Registry/Safety, Calls and Shutdown hold the proofs.
-- Generation/Snapshot, Changes, Store, Claim, Control: the durable record. Snapshot has the record
--   and its validity (validPlatformGenerationSnapshot), Changes the change that each lifecycle
--   method makes to it, Store the compare-and-set write around a change (mutate, mutateOwned),
--   Claim and Control the other operations with their Lua scripts. An operation that reads and then
--   writes takes two cells, what its GET read and what its script finds, so any interleaving of
--   processes is a list of operations, each with a reading of any age. Codec is what is assumed of
--   encoding/json: a record has one text, which reads back.
-- Generation/Receipt: the test by which a repeated completion is recognised, against Complete.
-- Generation/Lifecycle: all operations together (Op, apply, history), the edges of the lifecycle
--   (Edges), what new records hold (Births), and the proofs on what executions can do (Evolution,
--   Applied, Finality, Ownership, Exclusive).
-- Sse: the encoder. Sse has its state and tests, Methods a function per method, Trace the rules of
--   the stream said of the events alone, Invariant what the encoder's fields say of the events;
--   Report, Speaking, Ending, Grammar and Progress hold the proofs.
-- Intent: internal/actionsecurity, the canonical bytes of an action's intent over which a
--   confirmation's digest is taken. Intent is encode.go, the writer; Texts has UTF-8, the order of
--   texts and TrimSpace; Forms has the intents of intent_users.go and intent_public.go with their
--   checks, Encoders their fields, Actions the registry of actions (types.go, registry.go). Words
--   and Layout are lemmas on bytes; Alike says when two intents say the same; Injective, Binding,
--   Canonical, Ranges, Binds and Active hold proofs.
-- Render: internal/service/public_render_job.go, the jobs that render the public site. Render has
--   the rows and the arithmetic of fences, Jobs the lease with its scans, Transitions what the holder
--   does (Renew, Complete, Fail), Health the reports; a transaction is a function of the tables,
--   since it locks the publication's row first. History has all operations as steps, with what the
--   publishing services add. Lifecycle has the changes of one row; Rules and Edges say column by column
--   what a row holds and how it may change; Outcomes, Changes, Answers and Rows are lemmas on
--   the code's tests, its changes and the rows; Steps, Holding, Paths, Bounds, Fencing, Replay,
--   Errors and Status hold proofs.
-- Operation: internal/service/action_operation.go, the operations of administrators under
--   idempotency keys. Operation has the rows and the tests on them, Access who may begin one (the
--   session, the ticket's verification, the decision of Authz on the action's descriptor of Intent),
--   Begin the two branches of Begin under its locks, Requests the whole requests and the writes of
--   Execute that end an operation, History all of them as steps. Touches and Once hold proofs.
-- Billing: internal/service/billing.go, the daily quota of calls. Quota holds the proof.
-- The files called Samples apply the theorems to concrete values.
--
-- Bounds. Numbers are natural or integer and do not wrap: the code refuses a time or a count beyond
-- 2^53 - 1 before it computes with it, and the additions to such a number stay within 63 bits. No
-- function needs fuel: every loop runs over a list, but for the eight scans of a lease, a bound of
-- the code. In Render the additions are those of the code, with its guards against overflow;
-- the counts of Billing wrap around at 64 bits, as the code does not guard them.
--
-- Not modelled: transport errors and expiry in Redis, nil receivers, the drawing and hashing of
-- lease tokens (the digest is an argument), the member checks on JSON text, the key scan and
-- ReconcileComplete, the text of a frame (its length is an argument); the errors of the SQL database,
-- the alerts' own states, the reading of a release's payload, the limits and revocations in Redis,
-- and what an action's consumer writes; and the other services, the
-- handlers, the storage, the configuration and the scripts, which are mostly SQL, HTTP and wiring.
pub mod Authz
pub mod Billing
pub mod Generation
pub mod Intent
pub mod Operation
pub mod Prelude
pub mod Render
pub mod Sse
