-- ===== src/Lib.antt =====
-- dispatch-lab: a delivery-dispatch simulator. A Go backend owns the state of a simulation: a city
-- of roads, drivers and orders. Clients send commands, an actor loop applies them one by one and
-- moves the drivers with every tick, and each change leaves as a numbered event.
--
-- Parts and files:
--   * Domain: internal/domain/city.go, driver.go, order.go, event.go. Domain/Defs has the types,
--     Domain/City has EdgeByID and SetClosed.
--   * Routing: internal/routing/astar.go. find_route is FindRoute, loop its main loop, relax_edge
--     the body of its inner loop, reconstruct the way back.
--   * Spatial: internal/spatial/grid.go. new_grid, set_point, remove, size and candidates are
--     NewGrid, Set, Remove, Len and Candidates.
--   * Matching: internal/matching. Matching/Baseline is baseline.go, Matching/Assignment the
--     Hungarian solver of assignment.go, Matching/Optimized the batch matcher of optimized.go.
--   * Simulation: internal/simulation/simulation.go. Simulation/State has the state and emit,
--     Simulation/Dispatch both strategies, Simulation/Movement moveDriver and handleDriverAtNode,
--     Simulation/Roads closing, reopening and rerouting, Simulation/Actor construction, the
--     commands, the tick and the loop Run. Simulation/Stream has the proofs about the events,
--     Simulation/Lifecycle those about drivers, orders and routes.
--   * Store: internal/store/store.go and memory.go. Store/Memory has the rows and the calls of the
--     in-process store, append_events for AppendEvents and so on.
--   * RateLimit: internal/ratelimit/limiter.go. new_limiter, allow, sweep and size are New, Allow,
--     sweep and Len.
--   * Grid: internal/city/generate.go. generate_grid is GenerateGrid, place_nodes its first double
--     loop, connect_all its second, add_edge its addEdge; Grid/Connected joins it to the router.
--   * Replay: internal/replay. Replay/Wire has the payloads as JSON values, EventFrom and Domain,
--     Replay/State the builder of state.go, Replay/Fold apply and StateAt, Replay/Reader the reader
--     of reader.go over LogStore, the calls of a store. Replay/Recorder is recorder.go, one step for
--     each communication of its goroutines; its children have the proofs about it. Replay/Coherent,
--     Replay/Panics and Replay/Agreement have the proofs about states, Replay/Paging and
--     Replay/Pages those about the reader.
--   * Service: internal/service. Service/Sessions is sessions.go: issue, validate, extend, forget and
--     purge_fallback are Issue, Validate, extend, Forget and PurgeFallback. Service/Manager is
--     manager.go: create, order, reset_run, submit, mark_run and serve are Create, PlaceOrder, Reset,
--     submit, MarkShowcase and the requests on one run.
--   * Idempotency: internal/transport/http/idempotency.go. get, put, evict and size are Get, Put,
--     evict and Len.
--   * Prelude: shared names, maps, sorting, numbers and texts. Scenarios: concrete runs.
-- The simulation calls the matchers for an assignment, the matchers call the router for costs and
-- the grid for candidates, and all of them read the city of the domain.
--
-- State is passed explicitly: an operation takes a simulation and returns the next one, with the
-- events it emits appended to the field `pending`. A nil dereference or an index out of range sets
-- `crashed`, is the result `crashed` in replay, or is `none` in the solver.
--
-- Numbers: float64 is an interface (Prelude/Float), a type with the operations of the source.
-- FloatLaws has what its order obeys for values other than NaN; a theorem that needs it takes it
-- as an argument. Counters are natural numbers without the bound of Go's int, and the integers of
-- a payload are integers without it.
--
-- Maps are association lists. Go leaves the order of a map's iteration open; the source sorts
-- wherever the order can be seen, except in EdgeByID and SetClosed, where ids are unique.
--
-- Fuel: the loop of the router takes one round for each road and one more, since a node's roads
-- are relaxed once; the way back takes one round more than the map cameFrom has entries; the loop
-- of a moving driver takes one round for each hop that is left of the route. The ring search of the
-- grid takes two rounds more than the farthest cell is rings away, past which every point was seen;
-- the augmenting loops of the Hungarian solver take one round more than there are columns: each marks
-- another column as used. Where those two run out the model answers `none`. The reader's loop over
-- pages takes one round more than the target, since each page ends after the one before.
--
-- JSON: a payload is a data type of values, or bytes that are missing or malformed. Unmarshal reads
-- the fields of a struct by name, takes an absent one or null as the zero value, and fails on a
-- value of another kind. Keys are matched as they are spelled, and occur once.
--
-- Not modelled: contexts and the wall clock (the order of the steps and inputs stands for them),
-- metrics, spans and logs, the source of random numbers (generate_grid takes a stream of them,
-- new_with_config the city), the row that Create writes and the wait at a shutdown, the
-- comparison, showcase and retention services, the WebSocket hub, the HTTP server, the PostgreSQL
-- store, telemetry and the commands.
pub mod Prelude
pub mod Domain
pub mod Routing
pub mod Spatial
pub mod Matching
pub mod Simulation
pub mod Scenarios
pub mod Store
pub mod RateLimit
pub mod Replay
pub mod Idempotency
pub mod Service
pub mod Grid
