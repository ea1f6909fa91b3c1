-- ===== src/Lib.antt =====
-- A model of the control plane of slancha-mesh, a mesh of machines that serve language models.
--
-- Nodes send heartbeats to a registry (mesh/registry.py), an event log that is replayed into a
-- snapshot of nodes and of bindings of specialists to nodes; a router reads snapshots, selects a
-- route for each request (mesh/select.py) and sends it to a node, and keeps a circuit breaker for
-- each binding (mesh/runtime_health.py) and a table of the asynchronous jobs that it owns
-- (mesh/job_store.py). Beside these, workloads that need GPU memory are placed on nodes by what is
-- reserved there (mesh/gpu), an allocator suggests which specialists the nodes should run
-- (mesh/allocator.py), and a tuning package trains challengers on idle machines and promotes those
-- that a gate accepts.
--
-- Files:
--   Common: dictionaries in insertion order (Common/Dict, DictKeys, DictPerm), stable sorting
--     (Common/Sort), integers (Common/Int), Python's floats (Common/Double), tests and lists.
--     DictEntries is about keys with values.
--   Models: the records of mesh/models.py, with the fields that the modelled code uses.
--   Identity: mesh/identity.py. Ed25519 is a parameter.
--   EventStore: mesh/event_store.py, and the contract of a durable store.
--   Registry: mesh/registry.py. Registry/State is the state and `__init__`, Registry/Ingest the
--     methods that change it, Registry/Compact `_compact_heartbeats`, Registry/Replay `snapshot`
--     and `build_ranked_routes`. The other files prove: Compaction, Preserved and OneBeat are
--     about the log, Views, Snapshots, Ranked and Fresh about what is read from it, Trace and
--     Keeps about runs, Answers and Pins about identities, Errors about what an error leaves,
--     Keys, Decode, Restorable and Restart about a restart.
--   RuntimeHealth: mesh/runtime_health.py. RuntimeHealth/Bounds, Trace, Eviction, Refinement,
--     Isolation and Probe are what is proved of it, and RuntimeHealth/Report is its `snapshot`.
--   JobStore: mesh/job_store.py. JobStore/Rows is the table and its statements, JobStore/Cleanup
--     `_cleanup_expired`, JobStore/Operations the methods and JobStore/Claiming those on claims.
--     Tables, Twins, Rounds and Owners are about what the statements and the cleanup keep,
--     Methods and Trace about runs, Leases, Granting and Claims about claims, Reads about
--     reading.
--   Gpu: mesh/gpu/reservations.py (Gpu/Reservations, with Verdicts about a file, Listing about
--     what is returned and Pruning about what is deleted) and mesh/gpu/cluster.py (Gpu/Placement,
--     proved in Gpu/Choice).
--   Select: mesh/select.py. Select/Text is the normalisation of signals, Select/Route
--     `select_mesh_route`; Select/Chosen proves what it chooses. Select/Pref and Select/Weigh are
--     `select_mesh_route_with_pref`; Meets is about its filter, Best about its order, Preferred
--     about the result, Limits about the limits of a client and of an administrator.
--   Router: mesh/router_app.py. Router/Bindings is about which bindings may be used,
--     Router/Request about the checks of a request, Router/Attempts about the fallback loop,
--     Router/Chat about `chat_completions`, with `select` of mesh/classifier/auto.py; the clock
--     is read once before the loop. Router/Refresh is `_RefreshingSnapshot`. Cases is a rule for
--     the results of a request; Settled and Forwarded prove where answers come from, Counts and
--     Accounts what is counted, Calls and Served what any requests leave, Discovered, Merged,
--     Kept and Retained what a router holds that discovers its nodes. A pass that raises changes
--     nothing and is none of the passes.
--   Allocator: mesh/allocator.py. Allocator/Score is `model_fit_score`, Allocator/Place the
--     greedy loops, Allocator/Tiers the tiered strategy and `allocate_cluster`. Fits and Ranking
--     are about scores, Sound, Each, Cover and Secondaries about the loops, Suggested about the
--     result, Recorded about what `run_allocator` of the registry records of it.
--   Tune: packages/slancha-mesh-tune/mesh. Tune/Idle is idle.py (proved in Tune/Quiet), Tune/Gate
--     is `decide` of eval/gate.py (proved in Tune/Accept), Tune/Loop is loop_runner.py: Pick and
--     Tick are about one tick, Promotion, Breaker, Queue and Drain about what the ticks do.
--   The files named Samples hold runs on small inputs.
--
-- State is passed explicitly. A method that runs under a lock is a function of the whole state,
-- and a run is a list of calls in the order that the lock gives them. The clock, `uuid4` and the
-- outcome of each call of a library are arguments or fields of a record of the environment. A
-- method that raises returns the error and the state that it leaves; a call of the durable store
-- that raises leaves the store as it was.
--
-- Times are microseconds, as in `datetime`, or whole seconds for the monotonic clock of the
-- circuit breakers; rates and scores are whole numbers of a fixed unit, but for the scores of the
-- allocator and of a preference, which take floating-point arithmetic as a parameter
-- (Common/Floats), and of the promotion gate, which are binary64 numbers (Common/Double). Loops
-- are structural recursion; the greedy loop of the allocator has fuel for one round more than
-- there are domains to cover, and each round covers one.
--
-- Not modelled: HTTP, processes, hardware probing, the classifier's numerical models, pydantic's
-- validation of fields, and the training, the corpora and the dashboards of the tuning package.
pub mod Common
pub mod Models
pub mod Identity
pub mod EventStore
pub mod RuntimeHealth
pub mod Registry
pub mod JobStore
pub mod Gpu
pub mod Select
pub mod Allocator
pub mod Tune
pub mod Router
