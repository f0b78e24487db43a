-- ===== src/Cqrs/QueryBus.antt =====
-- cqrs/query/bus.py: the pipeline of a query, with a cache that may fail. The cache's states are given by
-- the cache; what it raises is only logged.
pub mod Down
pub mod Caching
pub mod Asking
use pyfly.Common.{
  ℕ, String, Bool, true, false, ◌&&◌, Option, none, some, List, [], ◌∷◌, ◌++◌, if◌then◌else◌, ◌==◌,
}
use pyfly.Common.Effects.{
  Exception, query_processing, Result, ok, err, World, Act, pure, raise, ◌>>=◌, ◌>>◌,
}
use Prim.Native.String.{◌++◌ as text_append}
use pyfly.Cache.Manager.{CacheAdapter}
use pyfly.Cqrs.Messages.{Value, nothing, Message, Handler, Event, correlated, set_correlation_id}
use pyfly.Cqrs.Correlation.{Context, truthy}
use pyfly.Cqrs.Registry.{HandlerRegistry, find_query_handler}
use pyfly.Cqrs.Admission.{Services, correlate, check}
use pyfly.Cqrs.Handling.{handle}

-- A QueryProcessingException is raised as it is, any other exception becomes the cause of one.
abbrev pub wrap_query : Exception → Exception
wrap_query (query_processing cause) = query_processing cause
wrap_query exc = query_processing exc

abbrev prefixed : Option String → Option String
prefixed none = none
prefixed (some key) = some (text_append ":cqrs:" key)

-- _build_cache_key, where the query and the handler are for caching
unfoldable pub cache_key_of : Message → Handler → Option String
cache_key_of query handler =
    if query.cacheable && handler.supports_caching then prefixed (truthy query.cache_key) else none

abbrev pub ttl_of : Option ℕ → ℕ → ℕ
ttl_of none default_cache_ttl = default_cache_ttl
ttl_of (some seconds) default_cache_ttl = if seconds == 0 then default_cache_ttl else seconds

-- A result that is None is a miss.
abbrev pub hit : Result (Option Value) → Option Value
hit (err exc) = none
hit (ok none) = none
hit (ok (some nothing)) = none
hit (ok (some result)) = some result

module _ {S : Type 0} where
  unfoldable pub try_cache_get :
      Option (CacheAdapter S Value) → Option String → S → Option Value × S
  try_cache_get none key s = (none, s)
  try_cache_get (some cache) none s = (none, s)
  try_cache_get (some cache) (some key) s = let (r, s') = cache.get key s in (hit r, s')

  unfoldable pub try_cache_put : Option (CacheAdapter S Value) → Option String → Value → ℕ → S → S
  try_cache_put none key result ttl s = s
  try_cache_put (some cache) none result ttl s = s
  try_cache_put (some cache) (some key) result ttl s = (cache.put key result (some ttl) s).1

  -- clear_cache, clear_all_cache
  unfoldable pub clear_cache : Option (CacheAdapter S Value) → String → S → Result Bool × S
  clear_cache none key s = (ok false, s)
  clear_cache (some cache) key s = cache.evict key s

  unfoldable pub clear_all_cache : Option (CacheAdapter S Value) → S → Result (Unit {0}) × S
  clear_all_cache none s = (ok tt, s)
  clear_all_cache (some cache) s = cache.clear s

pub record DefaultQueryBus (S : Type 0) : Type 0 where
  pub registry : HandlerRegistry
  pub services : Services
  pub cache : Option (CacheAdapter S Value)
  pub default_cache_ttl : ℕ

module _ (world : World Event Value) (str_of : Exception → String) {S : Type 0}
    (bus : DefaultQueryBus S) where
  unfoldable pub find_handler : String → Act Event Handler
  unfolding find_query_handler
  find_handler message_type h = (find_query_handler message_type bus.registry, h)

  -- Steps 2 to 4.
  unfoldable pub admit : Message → Option ℕ → Act Event Handler
  unfolding check find_handler
  admit query context = do
    check world str_of bus.services query context
    find_handler query.message_type

  abbrev pub keep_result :
      Message → Handler → Result Value → S → List Event → Result Value × S × List Event
  unfolding cache_key_of try_cache_put
  keep_result query handler (err exc) s h = (err exc, s, h)
  keep_result query handler (ok result) s h = (
    ok result,
    try_cache_put bus.cache (cache_key_of query handler) result
        (ttl_of handler.cache_ttl_seconds bus.default_cache_ttl) s,
    h,
  )

  -- Steps 6 and 7, on a miss.
  unfoldable pub run_handler :
      Message → Option ℕ → Handler → Option Value → S → List Event → Result Value × S × List Event
  unfolding keep_result handle
  run_handler query context handler (some cached_result) s h = (ok cached_result, s, h)
  run_handler query context handler none s h =
      let (r, h') = handle world handler query context h in keep_result query handler r s h'

  unfoldable pub serve :
      Message → Option ℕ → Result Handler → S → List Event → Result Value × S × List Event
  unfolding run_handler try_cache_get cache_key_of
  serve query context (err exc) s h = (err exc, s, h)
  serve query context (ok handler) s h =
      let (found, s') = try_cache_get bus.cache (cache_key_of query handler) s in
      run_handler query context handler found s' h

  unfoldable pub run_query : Message → Option ℕ → S → List Event → Result Value × S × List Event
  unfolding admit serve
  run_query query context s h = let (r, h') = admit query context h in serve query context r s h'

  abbrev pub wrap_result : Result Value → Result Value
  wrap_result (ok result) = ok result
  wrap_result (err exc) = err (wrap_query exc)

  -- `_execute`, with the correlation and without the metrics.
  unfoldable pub ask :
      String
      → Message
      → Option ℕ
      → Context
      → S
      → List Event
      → (Result Value × S × List Event) × Context
  unfolding correlate run_query
  ask drawn query context c s h =
      let (cid, c') = correlate query drawn c in
      let (r, s', h') =
        run_query (set_correlation_id cid query) context s (h ++ correlated cid ∷ []) in
      ((wrap_result r, s', h'), c')
