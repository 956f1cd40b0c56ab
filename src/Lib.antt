-- ===== src/Lib.antt =====
-- A model of pgferry, a PostgreSQL proxy with connection pooling, and the theorems on it.
--
-- The program (crates/pgferry-bin/src/main.rs) builds a proxy from a file and the command line. Its
-- accept loop (crates/pgferry/src/proxy.rs) starts a session for each client, up to a number of them
-- (crates/pgferry/src/session.rs), which is listed in a registry (crates/pgferry/src/runtime.rs), can
-- be cancelled by its key (crates/pgferry/src/cancel.rs), and runs a loop over the events of its
-- client, of its server connection, of cancel requests and of the shutdown signal. It leases
-- connections from pools (crates/pgferry/src/pool.rs), asks an interceptor's hooks
-- (crates/pgferry/src/intercept.rs) at each phase, and may scatter a query over several endpoints
-- (crates/pgferry/src/scatter.rs) that its route names (crates/pgferry/src/config.rs), whose health
-- routers follow (crates/pgferry/src/routing.rs). The admin console (crates/pgferry/src/admin.rs) and
-- the metrics endpoint (crates/pgferry/src/metrics.rs) show pools and registries. An example gateway
-- (crates/pgferry/examples/gateway.rs) puts the built-in hooks, the routers and the shards together.
--
-- Prelude (with Tests, Assoc, Lists, Decimal, Text): shared names, maps as association lists, lists
-- by position, decimal numbers, what the standard library does on text.
-- Wire: the protocol's messages, with the fields that the proxy reads. Conn: an upstream connection,
-- that is what was written to it and what is still to be read; `drain_until_ready` of pool.rs.
-- Config: the settings of config.rs, `RouteConfig::endpoint`. Upstream: the connect factory of
-- session.rs and `connect_parts` of crates/pgferry/src/upstream.rs; proofs stand in Upstream/Secured.
-- Pool: the state of pool.rs. Pool/Sanitize has `probe`, `settle`, `close_cycle`, `sanitize`;
-- Pool/Parameters `sync_startup_parameters`; Pool/Checkout `Pool::checkout`; Pool/Checkin `checkin`,
-- `checkin_detached`, `destroy` and `baseline_params`; Pool/Manager `get_or_create` and the sweeper.
-- Proofs stand in Pool/Bounds, Histories, Clean, Startup, Literals, Reuse and Registry.
-- Intercept: the types of intercept.rs and the `Interceptor` trait as a record of functions;
-- Intercept/Rows has `DataRowMut`, Intercept/Rows/Encoding its round trip, Intercept/Rows/Columns
-- reading and writing a column; Intercept/Builtin the helpers of
-- crates/pgferry/src/intercept/builtin.rs, with proofs in its Recent.
-- Gateway: the interceptor of examples/gateway.rs, with proofs in its Masking, Asking and Rewriting;
-- Gateway/Options the loop over its arguments, Gateway/Main what it builds from them, with proofs in
-- Options/Printed and Main/Built.
-- Scatter: `run_leg_pooled` and `run_query_collect`; Scatter/Execute `execute_scatter`; Scatter/Merge
-- its two merge arms; Scatter/Shards `ShardSet`. Proofs stand in Scatter/Legs, Rows and Sums.
-- Routing: `EndpointGroup` of routing.rs, with proofs in Routing/Failover and Kill; Routing/Router
-- `FailoverRouter`; Routing/Split `RwSplit`, with proofs in its Comments and Writes.
-- Runtime, Cancel: the registries of runtime.rs and cancel.rs; proofs stand in Runtime/Live and
-- Cancel/Signals. Metrics: metrics.rs; proofs stand in its Labels and Reads. Admin: admin.rs; proofs
-- stand in Admin/Answers. Proxy: the builder of proxy.rs, Proxy/Accept its accept loop; proofs stand in
-- Proxy/Build and Slots; Proxy/Serve has `build_tls_acceptor` and `serve`, with proofs in its Spawned,
-- and Proxy/Shutdown the tasks of a running proxy. Settings: main.rs, up to the serving; proofs stand
-- in Settings/Chosen.
-- Session: the variables of `pump` as the record `Pump`. Session/Effects has the actions that its
-- handlers are written with; Statements the `StatementRegistry`; Attach `ensure_attached`; Query,
-- Actions and Client the client arm, in the order of its phases; Server and Relay the upstream arm;
-- Events the loop itself. Session/Triples has rules for actions; Session/Sound the session's
-- invariant; Session/Custody the account of its leases, with that of a scatter in its Legs and
-- Scattering; Session/Answers, Passing and Draining what single steps do; Session/Failover (with Reaches) the
-- attach under `FailoverRouter`. Session/Startup (with Baseline and Login) has `run_session` and
-- `run_session_ready` around the loop; Session/Startup/Leaves and Returns what they leave behind. The
-- fields `released`, `checkouts` and `granted` of `Pump` are no variables of the source: they record
-- what the session asked of the pools, was given by them and gave up.
-- Examples: the theorems at concrete inputs.
--
-- Parameters: pgwire's `simple_query`, `finish_authentication` and row encoder, the result of a
-- connect, the answers of the pools to a session, the order in which scatter legs complete, what the
-- other sessions do to the registries, pgwire's client and what it connects to, certificates and keys
-- in files, the binding of sockets, regular expressions, whether bytes are UTF-8, hashes of keys,
-- the environment, `SocketAddr`'s parser, `from_utf8_lossy`, `to_lowercase` and the interceptor's
-- hooks are arbitrary functions. Times are numbers that each operation is given. What arrives from a server is a list;
-- a wait that outlasts a time limit is an item of it. Counters of 64 bits wrap around.
--
-- Bounds and fuel: `ensure_attached` and `baseline_params_routed` have the source's own bound, twice
-- the number of endpoints and at least 2. `digits` is given one more than its number, `strip_loop` one
-- more than the length of its text, and `arrange` the number of legs; each is enough, as every step
-- makes the number, the text or the list smaller. All else is structural.
--
-- Not modelled: what goes over sockets below the protocol's messages, TLS and authentication
-- (pgwire's and rustls's), the parsing of the configuration file, and logging.
-- A row that is too short for its header is an error value where the source's slice access would
-- panic, and only ASCII white space is trimmed from a number. No task panics, and none is cut off at an
-- await: a session ends where its code returns, each operation of a pool is one step, and a task that
-- was told to stop by `abort` counts as stopped. The pooled legs of a scatter check their connections
-- out in the order of the request, and complete in any order. The texts of the errors that an
-- interceptor is told of in `UpstreamError` are fixed where the source formats another error in.
pub mod Prelude
pub mod Wire
pub mod Conn
pub mod Pool
pub mod Config
pub mod Intercept
pub mod Gateway
pub mod Session
pub mod Scatter
pub mod Routing
pub mod Runtime
pub mod Admin
pub mod Cancel
pub mod Metrics
pub mod Proxy
pub mod Settings
pub mod Upstream
pub mod Examples
