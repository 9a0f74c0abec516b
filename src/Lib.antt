-- ===== src/Lib.antt =====
-- Mali keeps a person's money: wallets in several currencies, the transactions that move their
-- balances, savings goals, budgets. This library models the Go server, mali_api, at the level of its
-- services (internal/usecase) over the tables that its repositories (internal/repository/postgres,
-- with the queries of db/queries) read and write, and some of what stands in front of the services
-- (internal/delivery/http). Paths below begin in mali_api/internal, or in mali_api where that has them.
--
-- How the code is written here. A Go function that returns a value and an error is an `M A` of
-- Context: it reads a platform and carries a world, which holds the tables and what was asked of the
-- outside. Guards and early returns are `raise_if`, a wrapped error is `on_error`, a deferred rollback
-- is `transaction`. Operations keep the names of the source, CreateWallet being `create_wallet`.
--
--  - Prelude: Booleans, lists and their order, integers and texts that all parts use.
--  - Rat, Rat/Text: what the program uses of math/big: Rat, SetString, FloatString. A denominator is kept
--    as it comes, which the code cannot observe. Rat/Order, Rat/Text/Valid: lemmas on them.
--  - Time: instants, in nanoseconds from the year 0, and calendar dates; Time/Rfc3339 reads texts.
--  - Json: JSON values, and how encoding/json fills structs from them.
--  - Domain, Store: the records of internal/domain, the rows of the tables.
--  - Context: errors, the platform, the world, calls; its children carry what a call leaves unchanged
--    (Frames, Silent, Views), preserves (Invariant) or has done (Success) through a do block.
--  - Amount: normalizeCurrencyCode, normalizeAmount, parseAmount.
--  - Wallet: usecase/wallet_service.go; Wallet/Repo: repository/postgres/wallet_repo.go.
--  - Transaction/Service and Transaction/Listing: usecase/transaction_service.go; Transaction/Repo and
--    Transaction/Query: repository/postgres/transaction_repo.go.
--  - Goal/Service, Goal/Contribute, Goal/Months, Goal/Milestones: usecase/goal_service.go; Goal/Repo:
--    repository/postgres/goal_repo.go. The big.Rat values that the code mutates in place stand in a heap, so
--    that two pointers can name one value.
--  - Budget/Service: usecase/budget_service.go; Budget/Repo: repository/postgres/budget_repo.go. The map
--    lastEmittedThreshold of the service stands in the world.
--  - Sync/Service, Sync/Changes, Sync/Payload: usecase/sync_service.go, which applies what a device sends by
--    the services above; Sync/Interfaces: what it asks of them, as records of operations; Sync/Wiring: how
--    cmd/api/main.go fills these; Sync/Log: repository/postgres/sync_log_repo.go.
--  - Auth/Accounts: registration and login, Auth/Service: refresh of tokens and logout, both in
--    usecase/auth_service.go; Auth/Users and Auth/Repo: repository/postgres/user_repo.go and
--    refresh_token_repo.go. Signing and reading of JWTs, SHA-256 and the reading of UUIDs are a
--    `TokenLibrary`, bcrypt is a `PasswordLibrary`: parameters.
--  - Rate/Service: usecase/rate_service.go; Rate/Repo: repository/postgres/exchange_rate_repo.go; Rate/Worker:
--    worker/rate_fetch_worker.go, for which the HTTP client and the decoding of what it answers are a
--    parameter.
--  - Category/Service: usecase/category_service.go; Category/Repo: repository/postgres/category_repo.go.
--  - Analytics/Service: usecase/analytics_service.go; Analytics/Repo: repository/postgres/analytics_repo.go and
--    what its queries sum up; Analytics/Worker: worker/analytics_worker.go. The view that it refreshes is
--    not among the tables, and no query reads it.
--  - Http/Guard, Http/Limit, Http/SyncLog: jwt_auth.go, rate_limit.go with its Redis script, and sync_log.go
--    of delivery/http/middleware. They stand around handlers, which are a parameter.
--  - Http/Wallets: handler/wallet_handler.go there, with the decoding and the checks of requests by fiber and
--    validator as parameters and with its service given, as cmd/api/main.go does; Http/Owner puts it behind
--    JWTAuth and SyncLog, the chain of router/wallet_routes.go.
--  - Sample: a platform and tables on which the code is run.
--
-- What is assumed of the outside. PostgreSQL, its driver, the clock and the generator of identifiers are a
-- `Platform`: functions of how often they were asked. A call may fail at any point, and then has done
-- nothing; a statement sees the tables as the statements before it left them, so concurrent
-- requests are not interleaved, and row locks only test that the row is there. What the server does with a
-- number (reading a text, rounding to a column, writing it) is a parameter too. Foreign keys are not
-- checked. Upper and lower case are those of ASCII. SetString reads signs, decimals,
-- fractions and decimal exponents, and refuses base prefixes, underscores and binary exponents, which Go
-- would take.
--
-- The primary keys of wallets and transactions are checked when a row comes in, so that a repeated id is
-- refused; for the other tables `gen_random_uuid()` may repeat an id, and then the row is added all
-- the same.
--
-- Instants are kept as they are given, although the driver cuts them to microseconds. Text is ordered by
-- the database's collation, a parameter. Years and months below zero count as zero. Redis is taken to keep
-- its sets for as long as they matter. Where some amounts of a report cannot be read, the order in which
-- analytics sorts is none, and what sort.SliceStable then makes of it is not what `order_by` makes.
--
-- No loop needs fuel: loops run over lists or over the digits of a text.
--
-- Not modelled: the other HTTP handlers and routes, CORS, request ids and request logging; the
-- configuration and the rest of the start of the program; the generated query code, of which only the
-- queries' texts are read; and the mobile application (mali_app), which is written in Dart.
pub mod Prelude
pub mod Rat
pub mod Time
pub mod Json
pub mod Domain
pub mod Store
pub mod Context
pub mod Amount
pub mod Analytics
pub mod Auth
pub mod Budget
pub mod Category
pub mod Goal
pub mod Http
pub mod Rate
pub mod Sample
pub mod Sync
pub mod Transaction
pub mod Wallet
