-- ===== src/Lib.antt =====
-- ArgosFX polls providers of exchange rates, stores every reading in SQLite, and serves rates that
-- are aggregated over the providers. This library models its core and proves what makes it correct.
--
-- How the parts interact. The configuration says which providers there are, how often each may be
-- called in a day, and the numbers of the aggregator. The scheduler polls a provider: it reads the
-- usage of the day from the store, calls the provider's API if the budget allows it, inserts the
-- readings and counts the call. A request for a rate goes to the aggregator, which reads the latest
-- reading of each provider from the store, drops the outliers and takes the median; rates between
-- two other currencies follow from their rates against the base. The handlers of the HTTP API stand
-- on the aggregator, the store and the metrics, and the response cache keeps what they answered for
-- a time to live. The start of the program stores a row for each provider of the configuration, makes
-- its adapter and registers its polls; before that it loads the configuration and the currencies and
-- opens the database, whose file gets its tables from a migration.
--
-- Which file models which part (paths from the repository's root):
--   Aggregator/Stats      internal/aggregator/stats.go: Median, FilterOutliers
--   Aggregator/Types      internal/aggregator/aggregator.go: Config, Source, Result
--   Aggregator/Direct     internal/aggregator/aggregator.go: computeDirect, indexOf, contains
--   Aggregator/Compute    internal/aggregator/aggregator.go: Compute, computeCross, mergeUnique,
--                         invertTo, AllCurrencies
--   Aggregator/History    internal/aggregator/aggregator.go: History and its helpers, Prune
--   Store                 internal/store/store.go and internal/store/migrations/0001_init.sql: the
--                         tables and each statement on them; Store/Monad is the world they run in
--   Store/Schema          internal/store/migrations/0001_init.sql: the statements of the schema
--   Store/Migrate         internal/store/store.go: Open, migrate, Close; Migrate/Opened, the file over
--                         the starts of the program
--   Scheduler             internal/scheduler/scheduler.go: ComputeSchedule; manager.go: the
--                         expression of Add
--   Scheduler/Run         internal/scheduler/manager.go: RunOnce, runWithTimeout, SetMetrics;
--                         scheduler.go: BudgetAllowed
--   Scheduler/Jitter      internal/scheduler/scheduler.go: Jitter
--   Scheduler/Overlap     internal/scheduler/manager.go: RunOnce in steps, and polls that overlap
--   Metrics               internal/obs/metrics.go and format.go: the registry and its text
--   Http                  internal/httpapi/httpapi.go: Types, the options, the answers and the
--                         standard library that is used; Site, the shared state and cacheLookup and
--                         cacheStore; Rates, allRates, ratesFromBase and singleRate; History,
--                         historyHandler; Status, healthz, readyz, metricsHandler and
--                         handleProviders; SortedKeys, sortedKeys; Routes, the table of routes
--   Adapters              internal/provider/adapters: registry.go; Latest, frankfurter.go and
--                         moneyconvert.go; Chart, yahoo.go; Network, what they ask of the network
--   Start                 cmd/argosfx/main.go: the providers' rows and polls, the server's options,
--                         the daily removal, envOr, derefInt, quoteCodes
--   Start/Main            cmd/argosfx/main.go: main up to the listening, runHealthcheck
--   Program               cmd/argosfx/main.go: polls, requests and removals in any order
--   Provider              internal/provider/provider.go: the interface of a provider
--   Cache                 internal/ratelookup/cache.go; Cache/Races is the step relation of
--                         concurrent callers
--   Config                internal/config/config.go: settings, defaults, Validate, Load
--   Config/Codes          internal/config/config.go: LoadCurrencies
--   Prelude, Text, Float, Clock, Error, Assoc
--                         what the parts share: lists, sorting, texts, float64, time, errors, maps
--   Tests                 runs at concrete inputs, and each theorem at an input of its own
-- Http/Honest is what the cache holds, and Http/Along what holds along the reads of a handler. Files
-- below these prove what they are named for.
--
-- How the code is modelled. A method that touches the database, the clock, an API or the counters is
-- a function from the world to an outcome and the world after it (Store/Monad); an error keeps the
-- state that was reached, as in Go. What the environment does is given by functions of a running
-- number, about which nothing is assumed unless a theorem says so: whether the n-th statement fails,
-- what the n-th reading of the clock is, what the n-th call of an API answers, and in which order a
-- query without ORDER BY returns its rows. Statements of SQL are functions on lists of rows. Every
-- loop is structural recursion, so that no fuel is needed. The messages of errors are kept without
-- the values that are printed in them, but for the two numbers of the error for too few providers.
-- A handler is a function from the world and the cache to its answer and to these after it; it does
-- not fail, and an error of the store or the aggregator is a value (Http/Site). What the handlers use
-- of the standard library, JSON and the texts of times, durations, numbers and errors, is a record of
-- functions about which nothing is assumed (Http/Types, Library); so is what the adapters use, the
-- answers of the HTTP client, the decoder and the clock (Adapters/Network, Net). The router calls a
-- handler with the parts of the path and of the query, and the cron library's answer to an expression
-- is a function, too. A timeout of a context shows as a failure of the driver or of the network. A
-- look into the cache reads the clock also where the code finds no entry and does not.
--
-- Assumptions and bounds.
--   * A time is a number of nanoseconds since the year 1, in UTC. The columns of times hold RFC 3339
--     texts, which in the years 1 to 9999 are ordered as the seconds that they stand for, and the
--     model keeps these seconds. A duration is an int64 with its wrap-around.
--   * float64 is an interface (Float), with the facts of IEEE 754 that the theorems use; a fixed-point
--     instance shows that these can hold together.
--   * strings.ToUpper and strings.EqualFold are modelled on the letters of ASCII: a code with other
--     letters keeps them.
--   * A nil slice is the empty list. t.Add stops at the year 1.
--   * A Go map is an association list, and nothing depends on the order of its keys; sort.Float64s and
--     sort.Strings are a stable insertion sort, whose result is theirs for values without NaN.
--   * What SQLite keeps beside the rows is in the model where the program can see it: the counters of
--     AUTOINCREMENT, which an upsert moves on also when it updates, and last_insert_rowid of the one
--     connection, which an INSERT into any table sets, those into usage and schema_migrations
--     included. No row of these two is deleted, so that their rowids count the rows. A reading whose
--     rate the driver stores as NULL is refused; which numbers these are is a function of the world.
--   * json.Marshal and json.Unmarshal of a provider's settings are functions of the world, too.
--   * Numbers of rows and of calls are not bounded; a counter of the metrics is a uint64.
--   * A statement of SQL runs or fails and changes nothing, also in a script of several; a start that
--     is killed leaves the file as one whose next statement fails does.
--   * Polls, requests and removals follow each other one at a time (Program). Polls of one job that
--     overlap, by statements and calls, and concurrent callers of the cache are step relations of
--     their own (Scheduler/Overlap, Cache/Races).
--
-- Not modelled: SQLite's files, pragmas and locks, signals, the listening and the shutdown, the router,
-- the cron library and its table of entries (NewManager, Start and Stop only call it; the registered
-- polls are a list), contexts and the log, which are the work of libraries or of the operating system;
-- and the shell and container files.
pub mod Prelude
pub mod Text
pub mod Float
pub mod Error
pub mod Clock
pub mod Assoc
pub mod Metrics
pub mod Store
pub mod Provider
pub mod Aggregator
pub mod Cache
pub mod Scheduler
pub mod Config
pub mod Adapters
pub mod Http
pub mod Start
pub mod Program
mod Tests
