-- ===== src/Lib.antt =====
-- YAPR, a router for services that keeps a service's traffic on the endpoints that its rules choose.
--
-- A pod registers its endpoints with a service (pkg/yapr/core/types/service.go). A router
-- (pkg/yapr/core/router.go) takes a request through its rules: the first rule with a matcher that the
-- request passes names a selector (pkg/yapr/core/selector.go), and the selector asks its strategy
-- (pkg/yapr/core/strategy) for one of the service's endpoints. A rule's `catch` says what becomes of
-- an error of the selection: retry, pass, block, throw or panic.
--
-- Prelude    Boolean tests, lists and Go's maps, as association lists whose order is the order of a
--            `range` loop.
-- Text       `strings.Split`, `strconv.ParseUint`, `strconv.Atoi` and `%d`.
-- Errcode    pkg/yapr/core/errcode: errors with a code, and results.
-- Go         what a call may do: return, panic, or go on for ever.
-- Endpoint   `Endpoint` of pkg/yapr/core/types/types.go: `String`, `EndpointFromString` and
--            `EqualEndpoints`.
-- Types      the other types of types.go, and the two endpoint filters.
-- Service    pkg/yapr/core/types/service.go: the record `Service` has the fields of the struct, and
--            each method is a function of its name.
-- TreeMap    the tree map of the library gods as an interface: its operations and their laws. The
--            child `Model` fills it with an association list.
-- Strategy   pkg/yapr/core/strategy/impl: `Select` and `Update` of random, round_robin,
--            weighted_random, weighted_round_robin, least_request, least_cost, hash_ring, direct and
--            custom_lua. `Cache` has the caches of custom routes, `Cache.Lru` on a heap of nodes.
-- Registry   `GetService`, `GetSelector`, `GetRouter` and `GetStrategy` of pkg/yapr/core.
-- Selector   pkg/yapr/core/selector.go over the interface `Strategy`: `select_service` is `Select`
--            behind `MustService`, and `select_endpoint` is all of it.
-- Router     pkg/yapr/core/router.go over the interface `Selectors`: `Match`, `MatchRule`, `Route`.
-- Store      pkg/yapr/core/store/impl/impl.go, a child for each group of its methods, over the interface
--            `Etcd`: `Config` (`LoadConfig`, `GetRouter`, `GetSelectors`), `Services` (`GetServices` and
--            its listeners), `Leases` (`RegisterService`, `UnregisterService`), `Attributes`
--            (`SetEndpointAttribute`), `Routes` (the custom routes) and `Migrations`.
-- Sdk        pkg/yapr/core/sdk: `Server` has the routing table, registration, `onMigration` and
--            `OnRequestReceived`, whose counters and goroutines are in `Server.Counters`; `Client` has `invoke` and `Invoke`, over the interface
--            `Process`, and `Client.Stale` puts the strategy direct under it; `Metadata` has the
--            interceptors of both, `Init` how a process starts, and `Handover` their `SetCustomRoute` with the store's routes and
--            messages.
-- Grpc       pkg/yapr/core/grpc: `Resolver` (the addresses, and `Selectors` of router.go), `Balancer` and
--            `Picker`.
-- Metrics    pkg/yapr/metrics/metrics.go: the recorder, and the samples that Prometheus is told. The other
--            parts leave it out: they are taken to run behind `Init` of metrics.
-- Example    cmd/example/echo-tcp: `Message` is `Data` of common.go as bytes, `Client` and `Server` what
--            the two programs keep for a connection, read from it and write to it; `Exchange` puts both
--            together, and `Process` the server SDK under the server. `Echo` is the handler of
--            cmd/example/echo/server, `Stress` the connection of cmd/example/stress/server, and
--            `Pods` the ports, endpoints and weights of a server program.
-- Tests      concrete runs.
--
-- Strings are texts, a pointer is an `Option`, and a nil map is the empty one. A `uint64` is taken
-- modulo 2 ^ 64 and a `uint32` modulo 2 ^ 32 where the source adds. Times are counted in thousandths of
-- a second, and clock readings are arguments, as are the numbers that `rand` draws. A method under a
-- mutex is one step. `regexp.Compile` and `HashString` are parameters. The events that a blocked
-- request sees are a list, whose end stands for the timer. Other loops are structural recursion.
--
-- The rounds of `invoke` are counted down from three, and those of `resize` from the number of entries.
-- A connection of the TCP example is the list of the bytes that are written on it; its reading loops are
-- counted down from a number of rounds, of which more than there are bytes are enough. The conversions
-- of texts and bytes, `err.Error()` and `json.Unmarshal` are the parameter `Encoding`. An event of the
-- server's counters is one operation on a `sync.Map` or an atomic number, or a report to the store.
-- Of the channel of responses it is kept how many were sent into it, and `has_room` says whether
-- there is room, from the number of writes that succeed. A background call of `SetCustomRoute` panics
-- at a nil endpoint as soon as it is started; otherwise it is listed, and what it changes in the store
-- is a change of the process's state, which a receiver may read from that state. `metadata.New` is
-- the parameter `fresh`.
--
-- Not modelled: the loops that wait on a ticker, a channel or a subscription (a round of each is a
-- function), failing calls of Redis, logging, the
-- page of metrics, and the main functions of the example programs. etcd, JSON, the run of a Lua script, gRPC's evaluator and
-- `NewSubConn` are parameters. A `Router`'s field `Direct` is left out, which nothing reads, and the
-- `Timeout` channel of a request, which is an event of the list.
pub mod Prelude
pub mod Text
pub mod Errcode
pub mod Go
pub mod Endpoint
pub mod Types
pub mod Service
pub mod TreeMap
pub mod Strategy
pub mod Registry
pub mod Selector
pub mod Router
pub mod Store
pub mod Sdk
pub mod Grpc
pub mod Metrics
pub mod Example
pub mod Tests
