-- ===== src/Lib.antt =====
-- A verification of flightdeck: of the mailbox that carries changes between two instances, of the
-- engine that keeps a shared project the same on both, of the webhook outbox, of the test for a
-- newer release, of the checks of input, of the live updates and of a cache, of the writes of the
-- service, of the fusion of search results, of how two instances come to share a project, and of who
-- gets in.
--
-- The parts and the files. An instance runs the sync engine (internal/sync/engine.go): for each shared
-- project it takes messages from its mailbox, applies them to the database and acks them, and sends
-- the rows that the peer has not seen. The mailbox (internal/mailbox/mailbox.go) is a server of its
-- own, which keeps messages until they are acked. The database writes of the service put events into
-- an outbox, from which a worker delivers them (internal/service/webhooks.go). The update checker
-- (internal/update/checker.go) compares versions.
--
--   Base             equality, conditionals, lists, association lists, byte strings
--   Mailbox.State    the store: mailboxes by id, their files, the leases; loadMeta's and pendingSeqs'
--                    data; the limits
--   Mailbox.Store    Create, Send, Receive, Ack and Delete, each from a store to its result and a store
--   Mailbox.Store.*  the invariant, the order of delivery, the leases, and what survives which calls
--   Mailbox.Server   the routes, the tokens, the answers
--   Sync.Payload     rows, payloads and the conversions (internal/sync/protocol.go, upsertParams)
--   Sync.Merge       mergeConflict
--   Sync.Engine      State: the database, the share state, the wire; then apply, applyItem,
--                    applyActivity, applyProject, logConflict
--   Sync.Engine.Exchange   pullInbound and pushOutbound
--   Sync.Engine.*    what is stored, what is sent again, what is acked
--   Webhooks         deliverEvent, rescheduleEvent and the outbox queries
--   Update           parseSemver, newerThan, LatestTag, SameVersion, Available, Notice
--   Impact           ValidateContextImpact and the enumerated fields (internal/service/validate.go)
--   Hub              the live updates (internal/service/hub.go)
--   Cache            the cache of the orient reads (internal/service/cache.go)
--   Items.State      the rows and parameters of items, activities, projects and the outbox
--   Items.Tables, Items.Revision   the queries of the service's writes, with the tables' constraints
--   Items.Transaction   WithTx (internal/store/store.go) and Go's error returns, as a small monad over
--                    a connection whose statements may break
--   Items.Operations CreateItem, createItemTx, BulkCreateItems, UpdateItem, LogActivity
--                    (internal/service/service.go), enqueue (webhooks.go), CompleteItem (features.go)
--   Items.Spec       what each write promises, as one function of the tables
--   Items.*          from the body of each transaction to a history of writes
--   Search           rrfMerge and capLen (internal/service/service.go)
--   Share.Base64, Share.Invite   the invite code (internal/sync/protocol.go)
--   Share.Client     the mailbox client (internal/sync/client.go)
--   Share.Rows, Share.Config, Share.Setup   the rows, the sharing configuration, ShareProject and
--                    AcceptInvite (internal/service/sharing.go)
--   Share.Passes     SyncShare and runOnce over the client (internal/sync/engine.go)
--   Share.*          the two rows of a share, the pass over all shares, and the outbound pass over the
--                    network, by way of the one of Sync.Engine
--   Auth             API keys (internal/store/api_keys.sql.go) and the middleware that asks for one
--                    (internal/auth/auth.go)
--   Projects         the tree of projects: ValidateProjectParent (internal/service/hierarchy.go), the
--                    query ProjectDescendants (internal/store/projects.sql.go) and a change of the
--                    parent (internal/api/projects.go)
--   VecCache         the cache of query embeddings (internal/service/veccache.go)
--
-- How the code is rendered. State is passed on: an operation takes the store, the database, the
-- connection or the event and returns the new one beside its result. Go's errors are a Result, a
-- Reply or an Option; a value that Go returns beside an error is left out. What the code takes from
-- outside is an argument: the clock, random tokens, the faults of the file system (Faults) and of
-- the database (Fate), what other callers commit around a call (Rivals), the outcome of a POST
-- (Attempt), whether the mailbox accepts a message; and of packages, JSON (Marshal, which also
-- takes in the conversion of a row to its dto), SHA-256, the cipher, UUIDs and the quoting of fmt
-- (Wire), and for the mailbox client the request itself, TLS and JSON (Net). In the service's writes a column that no code inspects is its text, a transaction's
-- writes are seen by others when it commits, and what others commit comes before a transaction's
-- first write or after its end. Texts that the code walks, joins or orders are lists of bytes.
-- Times and counters are natural numbers without a bound, but for an item's version, which the
-- database refuses past 32 bits: mailbox numbers are int64 and attempts int32 in the code, which no
-- run of the program exhausts. Recursion is on lists or texts, but for the rounds of the query for a
-- project's subtree: each but the last finds a row, so as many rounds as there are rows are enough.
--
-- Not modelled: the PKI of the mailbox and its issueClient route, the service's
-- projects but for their tree, contexts and the tiers of its search, the HTTP and MCP interfaces, the routes of the
-- public host, the rate limiter, embeddings, the generated queries beyond those named, the commands
-- and the web client; of the modelled parts the logs, the timers, and the failures of a database
-- call in the sync engine, which end a pass as a message does that is not applied, but for the
-- refusal of an activity whose kind or confidence the table does not allow. A mutex makes
-- each operation of the mailbox one step. The check of a project's new parent and its update are
-- two statements in the code and one step here: another change of a parent that comes between them
-- is left out.
mod Base
pub mod Mailbox
pub mod Sync
pub mod Webhooks
pub mod Update
pub mod Impact
pub mod Hub
pub mod Cache
pub mod Items
pub mod Search
pub mod Share
pub mod Auth
pub mod VecCache
pub mod Projects
