-- ===== src/Lib.antt =====
-- A model of EasyBot, a gateway between chat platforms and HTTP clients, and proofs about it.
--
-- The parts of the program that stand here, and how they interact: every HTTP request passes the
-- rate limiter, which counts it for the address of its client, and then the API key manager, which
-- authenticates it; the adapter manager starts, watches and reconnects the platform adapters behind
-- the API; an error of any of them is a value of one error type, which the API maps to a status, a
-- code and a message for the client, and which the adapter manager sorts into failures that are
-- tried again and failures that are not. Messages that come in pass an event bus to the session
-- manager, the message store and the webhooks; what goes out is first written to a journal, from which
-- its outcome reaches the bus.
--
-- * RateLimit (crates/easybot-api/src/middleware/rate_limit.rs). RateLimit/Window is
--   `SlidingWindow`, RateLimit/Limiter is `RateLimiter` with its bounded map and its clean-up,
--   RateLimit/Address is the choice of the client's address from the peer's address and the
--   X-Forwarded-For header, RateLimit/Middleware is `rate_limit_middleware`, from the first line of
--   that header. A text is the list of its bytes; how an address is written and which bytes are a
--   text are the libraries', and parameters. Times are numbers of milliseconds.
-- * Auth (crates/easybot-core/src/auth/api_key/mod.rs and keys.rs). Auth/Types and Auth/Database
--   hold the manager's state (the index of keys, the list of loaded keys and the database) and what
--   it loads and stores; Auth/Create, Auth/Authenticate, Auth/Revoke and Auth/Rotation one function
--   per method; Auth/Calls the sequences of calls, with restarts. The hash functions are parameters,
--   every database access may fail at any step as a parameter says, and the time and the random
--   values are arguments. Calls are atomic but for the promotion of a loaded key, whose two halves
--   stand apart because the code verifies outside its lock.
-- * Auth/Ephemeral (keys.rs, `create_ephemeral_key`): the keys of browser sessions, in memory only.
-- * Auth/Quota (keys.rs, `consume_subject_quota`): the window of a minute for each subject, on the
--   rows of the database and in memory. Auth/Audit (audit.rs) is the chain of hashes over management
--   events with its anchor. Auth/Idempotency and Auth/Ledger (billing.rs) are the reservations of
--   requests, the hourly usage with its mirror, and the billing events. The last three use tables that
--   no other method writes, so each stands with a state of its own; a transaction that fails at any of its steps, as
--   a parameter says, leaves the tables as they were. Hashes are parameters.
-- * Error (crates/easybot-core/src/types/error.rs): the error type, its texts, codes and statuses.
-- * Adapter (crates/easybot-core/src/adapter/manager.rs and manager/reconnect.rs). Adapter/Reconnect
--   classifies errors and computes the delays, Adapter/Manager starts and stops adapters, with the
--   background connection as a step of its own, Adapter/Reconnection is `reconnect_adapter`, and
--   Adapter/Monitor one round of the health monitor. The trait of the adapters is a record of
--   functions: an instance holds what the network will answer. Times are numbers of seconds; the
--   monitor's clock does not move within a round. Adapter/Calls has the sequences of calls, where a
--   reconnection may also stand as its single steps with other calls between them, and
--   Adapter/Race calls between the halves of others.
-- * Session (crates/easybot-core/src/session/manager.rs, types/session.rs). Session/Manager is the
--   session manager with its store, whose writes may fail, Session/Listing its `list`, Session/Key
--   `build_key`. Texts of messages are bytes, metadata a type with a length, a panic is `none`.
--   Session/Calls has the sequences of calls, Session/Race a call between the halves of a deletion.
-- * Persist (session/message_persister.rs, session/bridge.rs and `store_messages` of
--   storage/sqlite.rs): the two tasks that take inbound messages from the bus. Persist/Persister
--   batches, retries and stores them; Persist/Bridge hands them to the session manager. A panic there
--   ends the program, since the release profile of Cargo.toml has `panic = "abort"`.
-- * Webhook (crates/easybot-core/src/webhook/mod.rs, types/event.rs and `subscribe_many` of
--   bus/event_bus.rs). Webhook/Subscription chooses the event types and is the task behind them,
--   Webhook/Dispatch the filters, the signature and the requests. The libraries for JSON, HMAC and
--   HTTP are a record of functions; bodies and headers are bytes.
-- * Outbox (`outbound_deliveries` in crates/easybot-core/src/storage/sqlite.rs, and
--   `publish_outbound_events_once` of crates/easybot-api/src/lib.rs). Outbox/Rows has the rows and what
--   a statement does to one, Outbox/Journal the methods of the store, Outbox/Publisher the task that
--   gives settled deliveries to the bus, whose number of receivers is a parameter; Outbox/Calls has
--   the sequences of calls.
--
-- Calls are taken one after another, each as one step: in the code other tasks may run between the
-- awaits of a call, and change what it has read. This holds of `check` of the rate limiter, whose
-- test, eviction and entry are not under one lock; of `start`, of the end of a background connection
-- and of `reconnect_adapter`, which also sleeps and polls, of the adapter manager; and of
-- `get_or_create` and `delete` of the sessions, which write to the store after they have given the
-- map free. Theorems on sequences of their calls say nothing of overlapping calls. Overlaps that do
-- harm are stated apart, on the halves of these calls, in Adapter/Race and Session/Race.
--
-- Hash maps are association lists in the order of their iteration (Base/Maps). No definition needs
-- fuel: every loop of these parts goes over a list. Numbers are unbounded, since counters and
-- times stay far below the bounds of their types; where the code relies on a bound of a type, the
-- largest value is written out.
--
-- Not modelled: the platform adapters, the plugin host, the updater, the storage backends but for the
-- journal and one batch insert, and the routes, which are mainly input and output; grants, the
-- listings of ledgers, receivers that lag behind the bus, and the message paths of the adapter
-- manager. Log output is left out everywhere.
mod Base
pub mod RateLimit
pub mod Auth
pub mod Error
pub mod Adapter
pub mod Session
pub mod Persist
pub mod Webhook
pub mod Outbox
