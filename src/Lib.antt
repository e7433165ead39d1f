-- ===== src/Lib.antt =====
-- windforce-core: the control plane's job queue and leases, its clients, releases and webhooks, and the
-- encryption of what it stores.
--
-- A control plane keeps runs, jobs and human tasks. A client creates a run with its first job; workers
-- claim queued jobs under a lease, renew the lease by heartbeats and complete the job; a job may stop to
-- wait for a human, whose answer enqueues the next job of the run. Clients cancel jobs and runs and
-- retry failed runs; retention prunes settled runs and expires stuck ones. Inputs and results are
-- encrypted under the key of their workspace. A client calls with a token, and the settings of its
-- workspace are merged into its input and may lock keys of it. A catalog keeps the deployments of each
-- workspace and which of them is active; it is changed by publishing, by importing and by rolling back.
-- Releases and finished runs are events, and each subscription that wants an event gets a delivery of
-- it. All of it is a store with transactions: each operation reads and writes one snapshot.
--
-- Where each part is:
--   * Prelude, Str, Table, Json, Sort: Go's strings, maps, encoding/json and sort. A string is the list
--     of its code points, and a byte sequence that of its bytes; a map is an association list, whose
--     order stands for the order of a range loop, which Go leaves open: the statements are about every
--     list. A json.RawMessage is nothing, a JSON value, or bytes that are no JSON. Sorting is by
--     insertion: the code sorts by total orders, where all sorts agree, or stably.
--   * Contract (internal/contract/contract.go): deployments and actions; NormalizeWorkspace,
--     EffectiveRouteTag and EffectiveRequiredLabels. Contract.Tags and Contract.Labels hold the proofs.
--   * State.Types and State.Payload (internal/state/state.go): the records and states; NewActionJob and
--     PinnedDeployment. State.Payload.Roundtrip has what a job carries of its deployment.
--   * State.Events, State.Claim (internal/state/job_views.go and local_store.go): appendEvent; tags,
--     labels, limits and the order of claims.
--   * State.Ops (internal/state/local_store.go): one function per method of LocalStore, which takes the
--     snapshot and the time that `update` gives and returns the snapshot to write or an error. Enqueue
--     has CreateRunAndEnqueue, RetryRun and RequeueQueuedJobsForApp; Lease has ClaimJobForWorker,
--     HeartbeatJob, requeueExpiredJobs and leasedJobAndRun; Complete has CompleteJobSucceeded,
--     CompleteJobFailed and CompleteJobWaitingHuman; Cancel has CancelJob and CancelRun; Human has
--     ResumeHumanTask and ResumeRun; Retention has PruneSettledJobs and ExpireStuckJobs; Read has GetRun,
--     GetJob and GetHumanTask.
--   * State.AtRest is the interface by which the operations encrypt. Crypto (internal/crypto) and
--     State.Crypto (internal/state/crypto.go) implement it: `local_at_rest` is what LocalStore uses.
--   * State.Step: the operations as steps from snapshot to snapshot, and what they reach. A failed
--     operation writes nothing, so it is no step. State.Consistent has the invariant and a lemma for each
--     operation; State.History follows one job through the steps; State.Claims and State.Outcomes say
--     what claims and the other operations do.
--   * Event (internal/event/event.go): envelopes, how they are made, validated and read.
--   * State.Webhook (internal/webhook/webhook.go, internal/state/webhook.go): subscriptions and deliveries.
--     State.Webhook.Ops (internal/state/local_webhook.go) has ClaimDelivery, CompleteDelivery,
--     RetryDelivery and DeleteSubscription; its state `Webhooks` is the rest of the same snapshot, which
--     the job queue does not touch. Selected, Claims, Moves and Retries have the proofs.
--   * Catalog (internal/catalog/file_catalog.go, release_rollback.go, release_candidate.go): the catalog as
--     loaded, publishing, importing and rolling back. Catalog.Active has the proof on rollback.
--   * State.Releases (internal/state/local_catalog.go, webhook.go): the same changes with the events and
--     the deliveries that they enqueue. Wanted, Told and Unheard have the proofs.
--   * State.Settings (internal/state/local_clients.go, local_input_config.go, input_config.go): Clients is
--     the registry of clients and their tokens, with Tokens for its specification. Overlay makes the
--     input of a call from the settings of its workspace, and Stored keeps the settings; Merged,
--     Resolved, Precedence and Locked are about them, and Audited about what Changes writes to the
--     audit. A setting is written in two steps, which may see different snapshots: `seen` is the one
--     that is listed, for the audit. The audit compares bytes: `stored_text` and `text_of` are those of
--     a value as the state file has it and as it is written anew.
--   * Token (internal/token/token.go): the token by which a job calls back, minted and verified.
--
-- Conventions. A time is a natural number of nanoseconds, and 0 the zero time. Identifiers that the code
-- draws at random (NewID) are arguments named `fresh`; a step assumes that a new job id is not in use.
-- Attempts, the event sequence and the counts are numbers without a bound, where the code has 64 bits.
-- A loop over a map is a recursion over the list of its entries or keys, so no fuel is needed. A value
-- of AtRest stands for one configuration and one nonce. The text of an error is not modelled, only which
-- of the sentinel errors it wraps. The members of an object are read by their exact names, and of equal
-- names the last one counts; a map is written in the order of its keys. The catalog that a rollback
-- reads is first normalized, as it is on loading. The identifiers of the deliveries that one event
-- enqueues are a function of the key of the subscription, `drawn`.
--
-- The ciphers, the hash, base64 and the bytes of encoding/json are the parameter `Primitives` of Crypto,
-- with their documented behaviour in `Laws` and `ReadsBack`; State.Crypto.Examples has an instance.
-- Token has a parameter `Primitives` of its own, with `Laws`, for the keyed hash and base64.
--
-- Not modelled: the file, its lock and the JSON of the snapshot; PostgreSQL; job lists and summaries;
-- lists of audits; workspaces; the catalog's own file and its leases; the making and editing of
-- subscriptions, and the dispatch of deliveries; HTTP, workers and sandboxes, which are I/O around the
-- operations above.
mod Prelude
pub mod Str
pub mod Table
pub mod Json
pub mod Sort
pub mod Crypto
pub mod Contract
pub mod Event
pub mod Token
pub mod Catalog
pub mod State
