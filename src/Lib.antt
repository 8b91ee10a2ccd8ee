-- ===== src/Lib.antt =====
-- Verification library of the courier service, an HTTP API and a Kafka worker that assign
-- couriers to orders, both on one PostgreSQL database.
--
-- The parts and their modules. Prelude holds what the others share: tests and integers over the
-- native numbers, lists, and what the program uses of package strings. Errors are error chains
-- (internal/apperr, internal/repository/errors.go, internal/transport/kafka/errors.go). Domain
-- has the entities and their validation (internal/domain). Database is the state behind
-- internal/repository: the two tables of db/migrations, their sequences, and which of the next
-- driver calls fail. A computation is a function from it to a result and the database after it.
-- Repository.Couriers and Repository.Deliveries are the two repositories
-- (internal/repository/courier.go, delivery.go) with their SQL statements written out as
-- functions on the tables, WithTx among them, and Repository.Pool opens the pool
-- (internal/repository/db.go). On these stand DeliveryService (internal/service/delivery:
-- Assign, Unassign, ReleaseExpired) and CourierService (internal/service/courier). Orders is
-- the processor of order events (internal/service/orders), which uses the delivery service
-- through a port. Kafka is the consumer's loop over a claim (internal/transport/kafka), Worker
-- the handler that it is given (internal/app/kafka_orders.go), and Gateway the client of the
-- orders service with its retries (internal/gateway/orders). RateLimit is the token bucket
-- limiter, and Middleware what stands in front of the handlers with it
-- (internal/http/middleware/ratelimit, internal/app/container_ratelimit.go). Handlers are the
-- HTTP handlers (internal/http/handlers) on the requests and responses of HttpModels, and
-- Router puts them behind their routes (internal/http/router); Observability counts the
-- requests (internal/http/middleware/observability.go), and PprofServer decides who gets a
-- profile (internal/http/pprofserver). Config reads the settings (internal/config), Container
-- has the providers of both processes and what they can make (internal/app/container.go), and
-- App their runs: the connection at the start, the loop of releases, the wait for the end and
-- what is closed then (internal/app/helpers.go, runner.go, worker_runner.go). Mains has the two
-- programs (cmd). Logging is internal/logx with the recorder of internal/testutil. System puts
-- requests, events and ticks together as steps on one database. Board is the abstract
-- specification of the dispatch: the status of each courier and the holder of each order, with
-- the moves that a request allows; Board.Refinement relates the steps of System to them.
-- Examples has concrete databases, requests and settings.
--
-- How the code is modelled. Functions keep the names of the program's functions in this
-- library's spelling. A method with a receiver is a function of what it reads. Contexts,
-- timeouts and the network show themselves in the failures of driver calls: the list `faults`
-- says for each coming call whether it fails and how, and theorems without a hypothesis on it
-- hold for every pattern of failures. A call that fails may have been carried out by the
-- server, when its answer was lost: the late faults say so of a commit and of a statement
-- outside of a transaction, whose effect then stays although the program sees an error. int64
-- values of the database are unbounded integers, as the sequences do not come near the limit;
-- durations of the backoff wrap around at 64 bits. float64 is a parameter of the limiter, with
-- the laws that a theorem needs among its hypotheses. Loops are structural recursion: over the
-- received messages, over the rules, and, for the retries, over the number of attempts that are
-- left, which the loop's own bound gives.
--
-- What is not modelled: row locks and the interleaving of concurrent transactions (each
-- transaction is one step), the log entries that the operations write (but for those of
-- requests), request ids, the recovery from panics, the time limit of requests and the other
-- middlewares of chi, which route chi chooses for a path, the redirects of the mux of profiles,
-- the metrics' names (internal/prometrics), and code that the build generates (internal/proto,
-- docs). The JSON decoder, the gRPC client, the Kafka group, the dig container, the clock, the
-- environment, the command line, the files of secrets and the reader of floats are arguments;
-- so is the reader of durations, and Config.Durations is the one of package time, up to its
-- float64 arithmetic; what dig documents of Provide and Invoke is a hypothesis where a theorem
-- needs it. Times are stored as they are, where PostgreSQL keeps microseconds; that it refuses
-- a text with a NUL is left out, and so is the panic of `make` in List for a limit too large
-- for memory. Whether a wait of the retried calls ends by its timer or by the end of the
-- context is an input of Gateway, as the two happen.
pub mod Prelude
pub mod Errors
pub mod Domain
pub mod Database
pub mod Repository
pub mod DeliveryService
pub mod Orders
pub mod Kafka
pub mod Gateway
pub mod Worker
pub mod RateLimit
pub mod CourierService
pub mod HttpModels
pub mod Handlers
pub mod Middleware
pub mod App
pub mod PprofServer
pub mod Router
pub mod Observability
pub mod Logging
pub mod Mains
pub mod Container
pub mod Board
pub mod Config
pub mod System
pub mod Examples
