-- ===== src/Lib.antt =====
-- QueueBuzz, the server behind virtual waiting lines: a host opens a queue, guests join it by a
-- code, and both follow it over event streams. Queues, entries and hosts are documents in MongoDB;
-- the order of a queue, its ticket counter, its timers, sessions and join codes are keys in Redis,
-- which may lose them.
--
-- Net: one call of the database or of Redis, which is answered, lost on the way, or lost on the
--   way back, as a list of fates says, and the retry loop of internal/redis/retry.go (`ExecRetry`,
--   `WithRetry`, three attempts as in the source). Net/Keeps has the rules for reasoning about all
--   fates, Net/Ends those for runs in which every call is answered and which succeed; `calm` is
--   such a run. The fuel of the loop is its number of attempts: it runs out as the source's
--   does, with the error of the last attempt.
-- Store: what the program relies on of a collection, a sorted set and a key space, as records of
--   operations with their documented laws; Store/Concrete implements them over lists and functions.
-- Queue: internal/modules/queue and internal/modules/customer. Domain has the documents, World the
--   state that a call works on, Repository the commands of repository/redis.go, Ticket the texts of
--   ticket numbers, Lookup, Join, Calling, Closing and Opening the operations of service/service.go
--   (`GetPosition`, `CreateEntryForQueue`, `CallNextUser`, `finishUserSession`, `TerminateQueue`,
--   `CreateQueue`, `DeleteQueue`, `ExtendActiveQueueExpiry`), Slug its check of a slug,
--   Closing also `expireQueue` and Timers the handlers of service/expiry.go. Their children prove
--   what the operations do; Frame says which of them leave the entries alone.
-- Sse: internal/sse. Subscriber has the channel and the slots of one client, Broker the hub as a
--   heap of subscribers under pointers, Wakeup the writer and the publishers as interleaved steps.
-- Lock: the lock of internal/redis/lock.go under any key. Queue/Guest is
--   internal/modules/customer/service/service.go with that lock (`JoinQueue`, `RejoinByID`,
--   `SessionExists`).
-- Subscription: internal/modules/billing with Domain for its documents, Plans for `GetHostPlan`
--   and the cache of plans, Changes for the updates of a subscription, Events for
--   `ProcessBillingEvent` with all its handlers and Webhook for `HandleWebhook`. Standing is the
--   abstract side: what a host is entitled to, and what each event makes of it. Calendar is the
--   `AddDate` of Go that renewals and grace periods are computed with.
--   Requests has what a host asks for (`CancelSubscriptionAtPeriodEnd`, `SyncSubscriptionDetails`).
--   Reminders is `RunRenewalReminders`.
--   Provider is internal/modules/billing/provider/dodo.go, up to the calls of its client;
--   Provider/Message says apart from the parser what a notice of each type tells of a host.
-- Tokens: internal/services/otp_service.go (Otp), magic_link_service.go (MagicLink) and
--   internal/modules/customer/service/recovery_service.go (Recovery, over the texts of Texts).
-- Access: internal/modules/auth/service/auth_service.go (Sessions), and the guards of
--   internal/middlewares (Owner, Load) and internal/modules/queue/http (Capacity).
-- Hosts: internal/modules/host/service/service.go, accounts by contact and by a provider.
-- Billing: the limits and counters of internal/modules/billing/service/billing_service.go and the
--   quota of internal/modules/queue/http/create_queue_guard.go; Privacy: the masks of
--   internal/helpers/utils.go.
-- Examples: the theorems at concrete inputs.
--
-- Operations of the queue module change one state and are composed of calls by `>>=` and `>>` in
-- the order of the source; `attempt` is a call whose error is ignored. Identifiers, codes and times
-- are natural numbers; the clock stands still during an operation and a key's time to live is no
-- part of the state. Positions are scores without a fraction. Not modelled: JSON, HTTP, mail and
-- push messages, OAuth, the calls of the payment service, history reports, pictures
-- and start-up. Libraries that are not under the repository are parameters: the signatures of
-- tokens and notices, bcrypt and the hashes, as functions with the laws that the program relies on.
-- Printing a number takes a digit a round and has fuel for 19, which every int64 fits in; the proof
-- that a printed number is scanned back shows that this is enough.
pub mod Prelude
pub mod Net
pub mod Store
pub mod Lock
pub mod Billing
pub mod Subscription
pub mod Calendar
pub mod Tokens
pub mod Privacy
pub mod Queue
pub mod Sse
pub mod Examples
pub mod Access
pub mod Hosts
