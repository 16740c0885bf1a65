-- ===== src/Lib.antt =====
-- Verification of the core of baileys-api, a server that keeps WhatsApp connections and spreads them
-- over several instances through Redis: the cluster, the connections of an instance, their sessions,
-- the idempotency of sends, the proxy, the settings, and the pure decisions on messages.
--
-- The parts and their files:
-- - Redis, Json: what the program calls and does not implement, as parameters. A Redis database is an
--   abstract type with the commands that the program sends; `IsRedis` is their documented behaviour.
--   Redis/Memory is a database that has it. A `Codec` is JSON at one type, of which the theorems
--   ask that what is written is read back. Number.prototype.toString(36) is a parameter too.
-- - Exec: asynchronous code of one process as state passing. Every call of the server is a point at
--   which everything else runs first (`meanwhile`: other tasks of this process, other processes,
--   expirations), and a call can be refused, or be carried out with its reply lost. `turn` counts
--   the calls of this process and is the clock of the environment. A script is one call.
-- - AuthState: src/baileys/redisAuthState.ts, the session of each phone in a Redis hash, whose commands
--   are parameters (Redis/Hashes). Import has the Noise candidates of an imported session.
-- - Cluster: src/cluster. Keys are the texts of keys.ts. Site is what a process is started with
--   (config.ts, identity.ts) and the JSON values it stores. LeaseStore, QuarantineStore,
--   SendStallStore and InstanceRegistry have the functions of the files of these names, in
--   snake_case (acquireLease is `acquire_lease`), InstanceRegistry also workerRouting.ts. Backoff
--   is the formula that two stores share. Epochs is the commands of all instances for one phone,
--   in any order, as a step relation.
-- - Coordinator: src/cluster/coordinator.ts. State is the fields of ClusterCoordinator and what it
--   uses of the connections handler and of the stored sessions, as records of operations. Coordinator has
--   the leases of explicit operations (acquireExplicitLease, runUnderExplicitLease,
--   abandonExplicitLease, releaseHeldLease), Coordinator/Operations the operations under them
--   (connectWithLease, importSessionWithLease, restartWithLease, logoutWithLease).
--   Coordinator/Renew has runRenewCycle, runHeartbeat and shutdown, Coordinator/Claim has
--   runClaimCycle, Coordinator/Rebalance has runRebalanceCycle. The random order of a scan is a
--   parameter; connections that a claim cycle starts together are started one after another.
-- - Connections: src/baileys/connectionsHandler.ts. Options is a connection as far as the handler sees
--   it (connection.ts: constructor, updateOptions, currentOptions, sendState). Registry is the
--   handler's fields and the parts of its operations without an await, Slots is withInFlightOp and
--   the operations connect, discardConnection, logout, requestLogout and requestRestart, cut at their
--   awaits, and System lets any number of them run in any order. logoutAll is a step of System only
--   where every registered connection is discarded by its last step (Restarts has that step as
--   such), and updateLeaseEpoch is one of the changes that a connection makes by itself. An object
--   is a number, the heap a function, and a slot's promise is the number of its task. Single has the
--   invariant.
-- - Config: src/config.ts, the settings that are checked. The environment and Number(raw) are
--   parameters, and the texts of some errors are shortened. Start has the checks.
-- - Messages: src/baileys/helpers (normalizeBrazilPhoneNumber.ts, shouldIgnoreJid.ts), and Senders
--   messageEditSenders.ts. The library's predicates on JIDs and its jidNormalizedUser are parameters.
--   History is historySync.ts (stripHistoryPayload, historyFrames): the generator as the list of its
--   frames, a message as a tree of decoded values, and the byte length of its JSON a parameter.
-- - Idempotency: src/helpers/withIdempotency.ts, whole; Idempotency/Locks has its values and scripts.
-- - Proxy: src/proxy/router.ts and routeCache.ts, the requests of one phone (forwardByPhone). What
--   sends a request to a worker (forward.ts) is a parameter.
-- - Watchdog: src/baileys/connection.ts (the fields and methods on sends that do not come back),
--   src/baileys/helpers/isTxMutexTimeout.ts, src/helpers/withTimeout.ts. Watchdog has the fields and the
--   methods without an await, Relay is sendMessage and relayWithTimeout as events on a connection and
--   the list of its sends, in any order, and Stall is handleSendStall between the answers of the
--   server, with the strike, its rollback and withdrawStallRestart: its result, where the source has
--   none, is the list of what leaves the connection, reports and the request for a restart. The token
--   of a keystore is the generation of its socket, the clock of Relay does not go back, and what a
--   promise is awaited for runs with its settlement. The preparation of audio is left out.
-- - Edits: src/baileys/connection.ts, the order of the edits of a message. Edits is claimEditPosition and
--   editSuperseded, and Chains the deliveries (enqueueEditDelivery, onMessagesUpdate, and the parts
--   of emitUnresolvedEdits, decryptAndEmitMessageEdit and deliverToWebhook that read or change
--   either) as events. A chain is the list of what it still has to do; that a secret is stored and
--   opens an edit, and that a post succeeds, are arguments. The messages that are repaired in their
--   own batch go out as messages.upsert, each as a delivery of its own, apart from the chains.
-- - Reconnect: src/baileys/connection.ts (handleConnectionUpdate, handleReconnecting,
--   reconnectInBackground, connect, close, discard), cut at their awaits: what a connection waits for is
--   a list of tasks, and the answers are arguments. That a socket closes once is what the library
--   says. The QR code, the entries that an open clears and the callbacks to the handler are left out.
-- - Webhooks: src/baileys/connection.ts (sendToWebhook, deliverToWebhook): one delivery, as a loop on the
--   retries that are left. The numbers of the retry policy are natural numbers; what each attempt finds
--   and the random part of each wait are functions of its number.
-- - Text has facts on texts, Entries on objects used as maps, Sample concrete formats for the tests,
--   and each Tests module applies the theorems to concrete inputs.
--
-- Choices. Times are in milliseconds, and those given in seconds are multiplied out. Rejected
-- promises are values of `Result`; a finally block is written as its two ways through. A published
-- ownership event is a phone in the list `announced`: nothing waits for the publication, and its
-- failure is swallowed. Reads that the source starts together are made one after another. Log lines
-- and the callbacks in connection options are left out. The loop of recordRestart runs on the
-- number of attempts that are left, three at first as in the source, and so does that of
-- advanceImportCandidate; that of deliverToWebhook runs on the retries that are left. No other fuel is
-- used.
--
-- Not modelled: the rest of the connection (the contents of its webhooks, presence, groups), which
-- drives the Baileys library; the rest of the proxy and the controllers, which pass requests on
-- through the HTTP framework; the rest of historySync.ts, the store of message secrets and the
-- decryption of edits; media, which calls ffmpeg and the file system; timers.
mod Prelude
mod Text
mod Entries
mod Sample
pub mod Redis
pub mod Json
pub mod Exec
pub mod AuthState
pub mod Cluster
pub mod Config
pub mod Connections
pub mod Coordinator
pub mod Idempotency
pub mod Messages
pub mod Proxy
pub mod Edits
pub mod Reconnect
pub mod Watchdog
pub mod Webhooks
