-- ===== src/Lib.antt =====
-- A model of apime, a WhatsApp gateway written in Go, and what its core guarantees.
--
-- The program is an HTTP API over WhatsApp sessions. A request passes the rate limiter, the
-- authentication and the idempotency middleware, reaches a service (messages, instances, users), and
-- reads or writes the tables through a repository. A message is sent at once by Send, or stored as
-- queued and taken from a queue by the outbox worker; receipts from WhatsApp change its status later.
-- Events of the sessions, calls among them, go through a queue and a pool of workers to the webhooks.
--
-- Files, and the code they translate (paths from the repository's root):
--   Common: lists, options, tests on numbers, Go's maps, strings and times, objects shared by pointer,
--     SQL statements on lists.
--   Idempotency/Store: internal/storage/sqlite/idempotency_repo.go.
--   Idempotency/Postgres: internal/storage/postgres/idempotency_repo.go; its child Scale converts what
--     one table holds and answers to the other.
--   Idempotency/Middleware: internal/api/middleware/idempotency.go, in two halves: begin_request up
--     to the route's handler, finish_request after it. Its children state who owns a key, what a
--     repeated request gets, and what the handler sees of the body.
--   RateLimit/Limiter: internal/pkg/ratelimiter/memory/limiter.go. RateLimit/Middleware:
--     internal/api/middleware/rate_limit.go, over any limiter. RateLimit/ClientIp:
--     internal/api/middleware/ip_extraction.go and ip_rate_limit.go.
--   Queue: internal/pkg/queue/memory/queue.go. Queue/Redis: internal/pkg/queue/redis/queue.go, over the
--     commands of a Redis client.
--   Message/Repo: internal/storage/sqlite/message_repo.go.
--   Message/Outbox: Enqueue of internal/service/message/enqueue.go, and runWorker and
--     runStuckRecovery of internal/service/message/worker.go.
--   Message/Receipts: the receipts in internal/webhook/event_handler.go and
--     internal/session/whatsmeow/receipt_handler.go.
--   Message/StuckDetector: checkStuckMessages of internal/session/whatsmeow/receipt_handler.go.
--   Send/Attempts: the loop over SendMessage in internal/service/message/send.go and the recording of
--     its outcome. Send/Outage, Send/Reachout, Send/Inbound and Send/PresenceState are the states
--     beside it: reconnect_wait.go, reachout_negcache.go, inbound_tracker.go, presence_state.go.
--   Send/Content: what a send is given, and the context of a reply, in send.go, with the fonts of
--     internal/service/message/status.go. Send/Content/Build: the switch on the type in send.go.
--     Send/Sticker: internal/service/message/sticker.go. Send/Ready: the wait for the session in send.go.
--   Send/Flow: Send as a whole, from the guards of send.go and internal/service/message/whatsapp_id.go
--     on: Flow/Contact the signals to the contact, Flow/Row the row of the message, the attempts and
--     what is recorded, Flow/Whole the composition. It uses the other modules of Send and Message/Repo.
--   Send/Resolver: internal/service/message/jid_resolver.go over
--     internal/storage/sqlite/contact_repo.go. Send/Saver: internal/service/message/contact_saver.go.
--   Accounts/InstanceRepo, Accounts/Instances: internal/storage/sqlite/instance_repo.go and
--     internal/service/instance/service.go.
--   Accounts/Users: internal/service/user/service.go and internal/storage/sqlite/user_repo.go.
--   Accounts/Auth: internal/service/api_token/service.go, internal/storage/sqlite/api_token_repo.go
--     and internal/api/middleware/auth.go.
--   Accounts/Login: internal/service/auth/service.go and internal/api/middleware/rbac.go.
--   Calls: internal/session/whatsmeow/calls.go and internal/voip/voip.go: the tracked calls and the
--     engine's callbacks in Calls, the API in Calls/Api. Calls/Moves breaks each operation into the
--     few kinds of moves over which the invariants are proved.
--   Session/RetryCache: internal/session/whatsmeow/retry_cache.go. Session/Connection: the events of the
--     connection in handleEvent of internal/session/whatsmeow/events.go, with the debounce timer.
--   Webhook/Delivery: internal/webhook/delivery/delivery.go. Webhook/Pool: internal/webhook/pool.go and
--     internal/webhook/worker.go, over Queue.
--   Webhook/Edited: internal/webhook/edited_text.go. Webhook/CallEvents: internal/webhook/calls.go.
--     Webhook/Identity: who an event is about, in internal/webhook/normalizer.go, and
--     internal/webhook/broadcast.go.
--   Crypto: internal/pkg/crypto/encrypt.go.
--   Examples: each theorem of the list applied to a concrete run.
--
-- Conventions. A table is the list of its rows, and an operation takes the table and returns the
-- table. The clock, a new UUID, a hash, and which statements the database refuses are arguments. An
-- instant is a number of nanoseconds; the tables keep whole seconds, as RFC3339 writes them, and all
-- instants are of one zone. Concurrency is a sequence of table accesses, of critical sections or, for
-- the webhook pool, of the goroutines' channel operations and ends of work, in any order: SQLite has
-- one connection, and the in-memory states are behind mutexes or atomic maps.
-- What a library answers (the WhatsApp client, the call engine, HTTP, bcrypt, JWT, AES-GCM, net.ParseIP)
-- is an argument; a theorem that relies on its documented behaviour has that as a hypothesis.
--
-- Of the foreign keys, the cascades of a deleted instance and the cleared owner of a deleted user's
-- instances are modelled; a row that refers to nothing is among the refused statements.
--
-- Bounds. The loop of Send makes max_retries + 1 = 4 attempts, as the source does; attempts counts
-- them down and needs no other fuel. The delivery of a webhook counts down its configured retries
-- in the same way. The polling wait takes its rounds from a list: 91 rounds half a second apart
-- cover the whole budget of 45 seconds. The wait for the session takes its rounds in the same way,
-- 31 of them a second apart for its 30 seconds.
--
-- Not modelled: the HTTP handlers and the dashboard, the WhatsApp library, pairing and restoring of
-- sessions, most of the normalizing of events, the Redis limiter and the repositories of Postgres
-- other than the idempotency keys, the simulated typing before a send, and logging. What the code
-- asks of them is an argument of the definitions.
pub mod Common
pub mod Idempotency
pub mod RateLimit
pub mod Queue
pub mod Message
pub mod Send
pub mod Accounts
pub mod Calls
pub mod Webhook
pub mod Session
pub mod Crypto
pub mod Examples
