-- ===== src/Lib.antt =====
-- Verification library of the Aegis LLM control plane: the state store of the cluster and its
-- reconciler, the telemetry that is collected from it, the forecasts that are made from
-- telemetry, the risk of a placement, the scheduler that selects workers and commits placements
-- to the store, the simulator that drives a cluster, and the HTTP handlers in front of the store
-- and the scheduler.
--
-- The parts of the program and the files that model them:
-- - Cluster (internal/cluster): Cluster/Types has the records of types.go, topology.go and
--   snapshot.go; Cluster/Topology is MatchesTopologyRequirement; Cluster/Validation is
--   validation.go; Cluster/Health is health.go; Cluster/Store is InMemoryStateStore of
--   memory_store.go, each method a function from `ctx.Err()`, the arguments and the state to a
--   result and the next state. Its children are about a commit (Commit), a release (Release),
--   the checks of the entries (Valid), the account of a worker's memory (Accounting,
--   Accounting/Traces), what a commit and a release change (Effects), and several calls in a row
--   (Contention). Cluster/Reconcile is ReconcileCluster of reconcile.go.
-- - Shared: one goroutine's run against the store. The store's lock is held for one call, so a
--   run is given its turns, one for each call: what the others do to the store before the call,
--   and whether the context is done.
-- - Risk (internal/risk): the evaluator, over an interface of float64 (Base/Float) whose laws
--   are those of IEEE 754 for comparison, conversion and rounding; Whole is a model of that
--   interface.
-- - Telemetry (internal/telemetry): Types is record.go, Pressure is pressure.go, Dcgm is
--   ApplyDCGMSample of dcgm.go and DCGMIngestor.Ingest of dcgm_ingestor.go, Memory is store.go
--   and memory_store.go, Collector is RecordSnapshot of collector.go and service.go.
-- - Predictor (internal/predictor): Types has the records of a forecast, History is HistoryStore
--   of history.go, Results is ResultStore of result_store.go, Estimator is error_estimator.go,
--   Trend is TrendPredictor of predictor.go, Service is service.go. The service reads the record
--   store, whose listing only grows while the collector writes it, and keeps a history of its
--   own (Predictor/Service/Laws, Outcomes, Runs and Fed are about how the two stay together).
-- - Simulator (internal/simulator): Scenario is scenario.go, Lifecycle is lifecycle.go, Workers
--   and Seeds are simulator.go. Lifecycle/Complete, Lifecycle/Sound and Workers/Runs are about
--   the store through one completion, a pass and a whole run. The simulator's runs are given
--   turns of the others too.
-- - Api (internal/api/server.go): a handler takes a request to a response and a next state of
--   the run.
-- - Ticker: the loop of the services, over the list of the events that its selects take.
-- - Scheduler (internal/scheduler): Score and Select are scheduler.go, Predictive is
--   predictive.go, RiskAware is risk_aware.go, Queue is queue.go, Placement is placement.go,
--   predictive_placement.go and risk_aware_placement.go, Service is service.go. The three
--   selection loops and the three placements of the source are one loop and one placement here,
--   with the policy as an argument. Service/Alone and Service/Live are about passes and
--   placements when nobody else acts.
-- - Base has what the parts share: Boolean tests, Go's int, uint64, time.Time and time.Duration
--   (with their wrap-around and saturation), maps as association lists (Base/Dict,
--   Base/Distinct), results, and runs with state. Errors has the error values.
--
-- A Go map is a list of entries: the order of an iteration is that of the list, so a statement
-- about every list holds for every order. Over several iterations the order stays the same
-- unless a turn of the others lists the entries in another one, which it may. A uint64 is a
-- natural number whose sums and differences are taken modulo 2^64, an int an integer taken into
-- the range of 64 bits. Loops are over lists and need no fuel; the digits of a printed number
-- (Simulator/Seeds) take the number plus one as fuel, and any fuel beyond the number gives the
-- same digits. What the clock shows is an argument. A pass of the scheduler has one reading of
-- the clock and one state of the prediction provider, where the source reads time.Since and asks
-- the provider for each worker; each tick brings a reading and a state of its own. A panic (an
-- index outside of a slice, a ticker without a positive interval) is an error that no handler
-- catches.
--
-- Not modelled: the export of records as CSV, the benchmark and the command with its flags,
-- signals and goroutines, whose code is around these parts; net/http and encoding/json, of which
-- a request comes with its decoded body; the log lines; cancellation within a call of the store.
-- The interleaving of several runs is in the turns that each run is given, not in a scheduler of
-- goroutines.
pub mod Base
pub mod Errors
pub mod Cluster
pub mod Shared
pub mod Predictor
pub mod Risk
pub mod Scheduler
pub mod Telemetry
pub mod Simulator
pub mod Ticker
pub mod Api
