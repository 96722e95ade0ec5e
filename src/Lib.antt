-- ===== src/Lib.antt =====
-- The core of the payment backend: the lifecycle of a payment, the store that keeps payments, the
-- store of their executions, the amounts of a request, and the points of growth.
--
-- The parts and their files (source paths from the root of the repository):
-- - Payments.Types, Payments.Lifecycle: src/payments/paymentTypes.ts and paymentLifecycle.ts; each
--   function under its name (validatePaymentTransition is validate_payment_transition).
-- - Payments.Replay: src/payments/requestHash.ts and paymentIdentityReplay.ts. SHA-256 of the
--   canonical text (digest) and Date.parse (is_time) are parameters.
-- - Json: src/storage/jsonValues.ts. Values are immutable, so a copy is an error or the value, less
--   the keys "__proto__", which an assignment loses.
-- - Store: src/storage/memory/inMemoryPaymentPersistence.ts. The record PaymentStore has each map of
--   the class under its name; an operation is a function from a store to what it returns or throws,
--   with the store that it leaves. The queue that makes operations exclusive is the order of the
--   calls. Store.Machine gathers the operations as requests; a run is a list of requests, each with
--   the readings of the clock. The directory of Store.Identity is a parameter, and its claims are
--   not among the requests of the machine.
-- - Executions: src/executions/executionTypes.ts, executionReceiptTypes.ts, executionRepository.ts
--   and src/storage/memory/inMemoryExecutionRepository.ts, in the same way. The random IDs of
--   attempts are arguments; the ID of a new execution is taken to be fresh where it matters.
-- - Amounts: the amounts of src/payments/paymentIntentValidation.ts. Digits are printed on a fuel of
--   the number itself, which is enough since each division by ten makes it smaller.
-- - Growth: src/growth/zpPolicy.ts and zpProgress.ts; Growth.Projection:
--   src/storage/postgres/postgresZpStateRepository.ts, its two tables as a record of rows and its
--   queries as functions on them; Growth.Coordinator: src/growth/growthZpProjectionWorker.ts, whose
--   projector of settled payments is a parameter. Growth.Coverage and Growth.Refinement relate the
--   row of an account to its events.
-- - Intents: src/services/paymentIntentService.ts over the stores of Accounts and Store. What other
--   calls do to the payments while one waits is an argument (meanwhile), and so are its clocks and
--   random IDs.
-- - Workers: src/executions/adaptiveWorkerLoop.ts; the firing of a timer and the end of an iteration
--   are events, and the timers that the host keeps are part of the state. The promise that
--   stopAndDrain waits for is not modelled.
-- - Accounts: src/identity/identityTypes.ts, accountProvisioningService.ts and
--   src/storage/memory/inMemoryIdentityPersistence.ts, in the same way; Accounts.Machine gathers the
--   operations as requests, and Accounts.Queries has the queries and the resolution of a principal.
--   localeCompare is a parameter, and so are the random IDs.
-- - Directory: src/economicIdentity/economicIdentityTypes.ts, economicIdentityValidation.ts and
--   src/storage/memory/inMemoryEconomicIdentityPersistence.ts; Directory.Runs gathers the operations as
--   requests. Public keys and URLs are parameters, and a text is put in lower case on the letters
--   whose lower case is ASCII, since no other ones can be part of a username.
-- - Devnet: src/devnet/devnetExecutionState.ts and
--   src/storage/memory/inMemoryDevnetExecutionStateRepository.ts; Devnet.Once gathers the operations as
--   requests. Of the prepared transaction, which a package declares, the fields that are read.
-- - Common: lists, options, results and texts; Tests: the theorems at concrete inputs.
--
-- Not modelled: the PostgreSQL adapters, routes, configuration, authentication, Solana and x402
-- adapters, the services over the devnet executions, the services and routes over the directory, the
-- execution worker and telemetry; the queries that list payments and executions.
-- Texts are compared by code points where the source compares UTF-16 units; they are ISO 8601 times.
pub mod Common
pub mod Json
pub mod Payments
pub mod Store
pub mod Amounts
pub mod Executions
pub mod Growth
pub mod Workers
pub mod Accounts
pub mod Intents
pub mod Directory
pub mod Devnet
pub mod Tests
