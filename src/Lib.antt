-- ===== src/Lib.antt =====
-- pyfly: the core of the framework's transactional engine, its resilience patterns, its container, its
-- command and query buses, its configuration and its derived queries.
--
-- The program is a Python application framework. Modelled are the parts that decide what is run, in
-- which order, and what is undone after a failure.
--
-- Saga (src/pyfly/transactional/saga, src/pyfly/transactional/shared). A saga is a dict of steps
-- with dependencies. SagaTopology.compute_layers (saga/engine/topology.py) arranges the steps in
-- layers, the orchestrator runs the layers, and after a failure SagaCompensator
-- (saga/engine/compensator.py) undoes the completed steps under one of five policies.
--   Saga/Definitions: StepStatus, CompensationPolicy, StepDefinition and SagaDefinition
--   Saga/Topology: compute_layers, loop by loop, on dicts that keep the order of insertion; its
--     children prove what the in-degrees count (Degrees, Building), the invariant of the main loop
--     (Invariant, Rounds) and the properties of the layers (Layers)
--   Saga/Compensator: compensate and one function for each policy; its children count and order the
--     invocations under each policy, and Rows has the failures in a row
--   Saga/Orchestrator: SagaExecutionOrchestrator.execute (saga/engine/execution_orchestrator.py) as a
--     step relation, in which the tasks of a layer take turns from one await to the next; Turns says
--     what a turn changes, Invariant and Order what every state of an execution satisfies
--   Saga/Engine: SagaEngine.execute (saga/engine/saga_engine.py), given the state in which the run of
--     the orchestrator has ended; Statuses and Undoing say in which order a failed saga is undone
--   Saga/Composition: sagas in layers (saga/composition/compositor.py and compensation_manager.py);
--     Processing, Gathering and Failing say what has run and what is compensated
--
-- Tcc (src/pyfly/transactional/tcc). TccExecutionOrchestrator.execute
-- (tcc/engine/execution_orchestrator.py) runs TRY on the participants, then CONFIRM, and CANCEL after
-- a failure of either; TccParticipantInvoker (tcc/engine/participant_invoker.py) calls them.
--   Tcc/Definitions: the phases, participants and TCCContext
--   Tcc/Orchestrator: execute and its loops; Starts says which participants a phase starts, Answers
--     and Attempts whose call returned, Loops and Phases what each loop keeps, Members and Outcomes how
--     a transaction ends
--
-- Resilience (src/pyfly/resilience, src/pyfly/client). The rate limiter, the bulkhead, the circuit
-- breaker, the retry policy and the fallback stand alone: each wraps a function that the application
-- supplies.
--   Resilience/RateLimiter: the token bucket of resilience/rate_limiter.py
--   Resilience/Bulkhead: the slots of resilience/bulkhead.py, with calls in flight as a step relation
--   Resilience/CircuitBreaker: client/circuit_breaker.py, admission and settling of a call apart
--   Resilience/Retry: client/retry.py
--   Resilience/Fallback: the decorator of resilience/fallback.py
--
-- Backpressure: the batched and the circuit breaker strategy of
-- src/pyfly/transactional/shared/engine/backpressure.py, which run a processor over items. Batches and
-- Outage say what they answer and how often they call it. The adaptive strategy is not modelled.
--
-- Cache: InMemoryCache (src/pyfly/cache/adapters/memory.py) and InMemorySessionStore
-- (src/pyfly/session/adapters/memory.py), which delete what has expired when it is next looked up;
-- Cache/Expiry compares them with a map that never deletes on expiry. Cache/Manager is CacheManager
-- (src/pyfly/cache/manager.py) over any two caches.
--
-- Persistence: InMemoryPersistenceAdapter (src/pyfly/transactional/shared/persistence/memory.py), which
-- the saga and TCC engines write their states to; Persistence/Cleanup says what a clean-up removes.
--
-- Paging: Sort, Pageable and Page (src/pyfly/data/pageable.py, src/pyfly/data/page.py).
--
-- Container: the dependency injection container of src/pyfly/container/container.py. A class is what the
-- container reads off it by reflection: the parameters of its constructor and its fields.
--   Container/State: registrations, scopes, the state of the container
--   Container/Registry: register, bind and the single assignments
--   Container/Resolve: resolve, resolve_by_name, resolve_all, and _create_instance with the injection
--   Container/Registering, Singletons: what registering keeps, what a resolution keeps and answers;
--     Keeps, Parts, Building and Depth bring these through the methods in turn
--
-- Cqrs: the command bus and the query bus of src/pyfly/cqrs, which pass a message through correlation,
-- validation and authorization to the handler registered for its type.
--   Cqrs/ValidationResult, AuthorizationResult, Messages: the data, and the calls of the application's code
--   Cqrs/Registry: command/registry.py
--   Cqrs/Correlation: tracing/correlation.py, with the headers that carry the identifiers
--   Cqrs/Admission: validation/processor.py, command/validation.py and authorization/service.py; Guards
--     says what a message that passed has passed
--   Cqrs/Handling: the template of command/handler.py and query/handler.py
--   Cqrs/CommandBus: command/bus.py; Publishing and Sending
--   Cqrs/QueryBus: query/bus.py over any cache; Asking, Down with a cache that fails, and Caching with
--     the cache of Cache
--
-- Config: src/pyfly/core/config.py and src/pyfly/core/value.py.
--   Config/Values: nested dicts, their merging, the walk along a key; Layers says what a merge holds
--   Config/Texts and Keys: the pieces of a text with placeholders, of which Texts/Splitting says that
--     they are the matches; keys and names of variables
--   Config/Sources: the files of from_sources in their order
--   Config/Reading: get, placeholders, get_section and Value.resolve; Levels, on the limit of levels
--
-- Queries: src/pyfly/data/query_parser.py, which reads a query off the name of a repository method.
-- Queries/Parser is the parser, Queries/Printing says what a name that is parsed is made of, and
-- Queries/Orders what its order text is.
--
-- Common holds what these share: dicts as association lists, Python's sorted, texts by their
-- characters (Common/Texts), lists with native lengths, and Common/Effects, the code that awaits
-- other code. There, each awaited call (a step's method, a port, asyncio.sleep) is an event; the
-- outside world is a function from the history and the event to a value or an exception, so it may
-- fail in any pattern, and the history outlives an exception. Nothing is assumed of it unless a
-- theorem names the assumption.
--
-- Bounds and fuel: numbers are naturals without a bound, as Python's are. The loop over the layers
-- has one round of fuel more than there are steps, which is enough as each round takes a step off.
-- The batches have one round for each item, and each takes at least one item. A constructor of the
-- container runs inside another, no class twice: there is one unit of fuel for each registration and one
-- more. The levels of placeholders are the code's own limit. All other loops are structural.
--
-- Not modelled: the interleaving of the compensations inside one asyncio.gather, which are run one
-- after the other; the rounding of floats (the number of pages, which depends on it, is a
-- parameter, and what holds of its rounding is a hypothesis); the resolution of arguments by
-- reflection; handlers that change a bus, a cache or a container while it runs them; the parsing of
-- YAML and TOML; logging, metrics, the adapters to other services, and the framework's other
-- packages.
pub mod Backpressure
pub mod Cache
pub mod Common
pub mod Config
pub mod Container
pub mod Cqrs
pub mod Paging
pub mod Persistence
pub mod Queries
pub mod Resilience
pub mod Saga
pub mod Tcc
