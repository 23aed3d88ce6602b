-- ===== src/Lib.antt =====
-- A verification library of billpiggy, a Go server that keeps households' expenses, budgets and
-- recurring payments. Commands append domain events; each event is queued in an outbox for every
-- projection; an engine delivers the queued messages with retries; the projections maintain rollups
-- and budget usage; a scheduler posts recurring payments.
--
-- The files, and the code that they are about:
-- - Base and its children: the shared names, integers and int64 arithmetic (Base.Int), Go maps as
--   association lists (Base.Assoc), and equality as an interface (Base.Equality).
-- - Clock and Calendar: time.Time and the civil calendar of Go's standard library, in UTC. The
--   calendar is that of the documented proleptic Gregorian rule, and Calendar.Years to
--   Calendar.Instants have its laws.
-- - Outbox: pkg/outbox/outbox.go (Message, Policy, RetryDelay is retry_delay, normalise). Outbox.Engine:
--   pkg/outbox/engine.go (Step is engine_step, the inner loop of Run is drain, one round of Run is
--   run_round, then record, refreshLag and Health) over any store, a record of operations.
-- - EventStore: internal/adapter/outbound/memory/event_store.go (Append, EnsureSubscription).
--   EventStore.Queue: claim, blockedLocked and ProcessNext; EventStore.Admin: Lag, ListDeadLetters,
--   RequeueDeadLetter. EventStore.History: any sequence of its calls, with a claim and its settlement
--   as separate calls, so that others come between, and of units of work rolled back to a Snapshot.
--   Scan, Order, Queues, Claims, Registration, Inventory, Progress and Attempts have its theorems.
-- - RateLimit: pkg/ratelimit/fixed_window.go (Allow). Cache: pkg/cache/cache.go (Get locks twice: get and
--   delete_expired are its two parts; Set is put).
-- - Payments: internal/core/domain/scheduled_payment.go (AddMonthsClamped, NextPaymentDue, NextDueFor).
-- - Ledger: internal/adapter/outbound/memory/scheduled_payment_repository.go (ClaimPosting,
--   AdvanceSchedule). Scheduler: internal/core/service/scheduled_payments.go (runOccurrence,
--   claimAndNotify), with the ports that it calls as parameters that may fail; Scheduler.Posts writes
--   down beside the state which occurrences postExpense is called for.
-- - Projections: internal/core/domain/projection.go (DecodeExpenseContribution, RollupPeriodStart,
--   BudgetWindow); Projections.Thresholds has its alerts and the loop body of recompute of
--   internal/core/service/budget_usage_projection.go.
-- - Rollups: the writes of internal/adapter/outbound/memory/analytics_repository.go. Analytics:
--   internal/core/service/analytics_projection.go (Handle, adjust).
-- - Base.Act: the errors of the services, a state and error action with do blocks, and Within of
--   internal/adapter/outbound/memory/unit_of_work.go (atomic). Base.After, Returns, Refuses, Fails and
--   Rows have the rules by which a property of an action is read off its parts.
-- - Identity: internal/core/domain/identity.go. Identity.Repository, Tokens and Values:
--   internal/adapter/outbound/memory/identity_repository.go. Identity.Writes lists the ways in which the
--   repository changes; Operations shows that its methods change it in these ways only; WellFormed,
--   SuperAdmin, Spent and SingleUse say what each way keeps.
-- - Auth with Sessions, Accounts, Passwords and Emails: internal/core/service/auth.go. Auth.Calls is any
--   sequence of its calls; Auth.Effects and its children show that each call only makes such writes.
-- - Notifications: internal/core/domain/notification.go and
--   internal/adapter/outbound/memory/notification_repository.go; Notifications.Service:
--   internal/core/service/notifications.go. Objects:
--   internal/adapter/outbound/memory/object_reference_repository.go.
-- - Groups and Taxonomy: internal/core/service/groups.go and taxonomy.go, with group_repository.go and
--   taxonomy_repository.go of internal/adapter/outbound/memory.
-- - Expenses: internal/adapter/outbound/memory/expense_repository.go; Expenses.Service, Validation and
--   Queries: internal/core/service/expenses.go. Expenses.Log reads the event log back,
--   Expenses.Effects compares it with the rows, and Expenses.Commands is any sequence of commands.
-- - Budgets and Budgets.Service: internal/adapter/outbound/memory/budget_repository.go,
--   internal/core/service/budgets.go and DecodeBudget of internal/core/domain/projection.go.
--   Budgets.Usage: internal/adapter/outbound/memory/budget_usage_repository.go; Budgets.Usage.Projection:
--   internal/core/service/budget_usage_projection.go (Handle).
-- - Tests: runs on small data.
--
-- State is explicit: each stretch of a method under one lock is one step on a record, and a read of
-- the clock is an argument. A method of a service is the sequence of its steps and runs to its end before
-- the next begins; it reads the clock once, and takes drawn ids and tokens as arguments. A service
-- holds the in-memory repositories, whose maps are association lists; where Go visits a map in no fixed
-- order, the order of the list stands for the one taken. An error that is wrapped is the error itself,
-- and what was written before an error stays written, unless a unit of work restores it. Amounts and
-- durations are int64 with their wrap-around; instants count nanoseconds from year 1 and lie in no
-- earlier year. The loops are structural recursion: MaxDrain bounds the engine's drain loop, attempts
-- bound the doubling of a backoff, and no fuel is used. json.Marshal and Unmarshal, bcrypt, SHA-256 and
-- JWT, functions on text, sort.Slice, and the answers of the email provider are parameters.
--
-- Not modelled: HTTP handlers and wiring (internal/adapter/inbound, cmd), the PostgreSQL, MinIO and
-- OpenAI adapters, whose behaviour is that of services outside the repository, rendering and
-- middleware packages under pkg, the assistant and its audit, reports, the audit trail and retention, and
-- the analytics queries, which divide in floating point. Of the scheduler's service the commands and
-- PostDue's listing are left out.
pub mod Base
pub mod Identity
pub mod Groups
pub mod Taxonomy
pub mod Objects
pub mod Notifications
pub mod Auth
pub mod Expenses
pub mod Budgets
pub mod Clock
pub mod Outbox
pub mod EventStore
pub mod RateLimit
pub mod Cache
pub mod Calendar
pub mod Payments
pub mod Ledger
pub mod Scheduler
pub mod Projections
pub mod Rollups
pub mod Analytics
pub mod Tests
