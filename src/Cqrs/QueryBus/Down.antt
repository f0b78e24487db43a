-- ===== src/Cqrs/QueryBus/Down.antt =====
-- cqrs/query/bus.py: a cache whose reads fail is as none.
use pyfly.Common.{ℕ, String, Option, none, some, List, [], ◌∷◌, ◌++◌, ◌≡◌, refl, sym, ap, ◌∙◌}
use pyfly.Common.Effects.{Exception, Result, ok, err, World}
use pyfly.Cache.Manager.{CacheAdapter}
use pyfly.Cqrs.Messages.{Value, Message, Handler, Event, correlated, set_correlation_id}
use pyfly.Cqrs.Correlation.{Context}
use pyfly.Cqrs.Admission.{correlate}
use pyfly.Cqrs.Handling.{handle}
use pyfly.Cqrs.QueryBus.{
  DefaultQueryBus, cache_key_of, hit, try_cache_get, admit, find_handler, keep_result, run_handler,
  serve, run_query, ask, wrap_result,
}

-- Every read of the cache fails.
abbrev pub IsDown : {S : Type 0} → CacheAdapter S Value → Type 0
IsDown {S} cache = (key : String) (s : S) → (e : Exception) × ((cache.get key s).0 ≡ err e)

-- The answer and the calls.
abbrev pub answer :
    {S : Type 0} → (Result Value × S × List Event) × Context → Result Value × List Event
answer ((r, s, h), c) = (r, h)

abbrev pub with_cache :
    {S : Type 0} → Option (CacheAdapter S Value) → DefaultQueryBus S → DefaultQueryBus S
with_cache cache bus = record bus { cache = cache }

module _ (world : World Event Value) (str_of : Exception → String) {S : Type 0} where
  keep_result-same :
      (bus : DefaultQueryBus S) (query : Message) (handler : Handler) (r : Result Value) (s : S)
      (h : List Event)
      → ((keep_result world str_of bus query handler r s h).0 ≡ r)
        × ((keep_result world str_of bus query handler r s h).2 ≡ h)
  unfolding keep_result
  keep_result-same bus query handler (ok result) s h = (refl, refl)
  keep_result-same bus query handler (err exc) s h = (refl, refl)

  run_handler-missed :
      (bus : DefaultQueryBus S) (query : Message) (context : Option ℕ) (handler : Handler)
      (found : Option Value) (s : S) (h : List Event)
      → found ≡ none
      → ((run_handler world str_of bus query context handler found s h).0
          ≡ (handle world handler query context h).0)
        × ((run_handler world str_of bus query context handler found s h).2
            ≡ (handle world handler query context h).1)
  unfolding run_handler
  run_handler-missed bus query context handler none s h missed =
      let (r, h') = handle world handler query context h in
      keep_result-same bus query handler r s h'
  run_handler-missed bus query context handler (some v) s h missed = cc

  down-missed :
      (cache : CacheAdapter S Value) (key : Option String) (s : S)
      → IsDown cache
      → (try_cache_get (some cache) key s).0 ≡ none
  unfolding try_cache_get
  down-missed cache none s down = refl
  down-missed cache (some key) s down = let (e, failed) = down key s in ap hit failed

  serve-IsDown :
      (bus : DefaultQueryBus S) (cache : CacheAdapter S Value) (query : Message)
      (context : Option ℕ) (r : Result Handler) (s : S) (h : List Event)
      → IsDown cache
      → let down = serve world str_of (with_cache (some cache) bus) query context r s h in
        let without = serve world str_of (with_cache none bus) query context r s h in
        (down.0 ≡ without.0) × (down.2 ≡ without.2)
  unfolding serve
  serve-IsDown bus cache query context (err exc) s h down = (refl, refl)
  serve-IsDown bus cache query context (ok handler) s h down =
      let key = cache_key_of query handler in
      let first =
        run_handler-missed (with_cache (some cache) bus) query context handler
          (try_cache_get (some cache) key s).0 (try_cache_get (some cache) key s).1 h
          (down-missed cache key s down) in
      let second = run_handler-missed (with_cache none bus) query context handler none s h refl in
      (first.0 ∙ sym second.0, first.1 ∙ sym second.1)

  -- While every read of the cache fails, a query is answered as without a cache, with the same calls;
  -- whether the writes fail makes no difference.
  pub ask-IsDown :
      (bus : DefaultQueryBus S) (cache : CacheAdapter S Value) (drawn : String) (query : Message)
      (context : Option ℕ) (c : Context) (s : S) (h : List Event)
      → IsDown cache
      → answer (ask world str_of (with_cache (some cache) bus) drawn query context c s h)
        ≡ answer (ask world str_of (with_cache none bus) drawn query context c s h)
  unfolding ask run_query admit find_handler
  ask-IsDown bus cache drawn query context c s h down =
      let cid = (correlate query drawn c).0 in
      let (r, h') =
        admit world str_of (with_cache none bus) (set_correlation_id cid query) context
          (h ++ correlated cid ∷ []) in
      let (results, calls) =
        serve-IsDown bus cache (set_correlation_id cid query) context r s h' down in
      let (result, _, _) =
        serve world str_of (with_cache none bus) (set_correlation_id cid query) context r s h' in
      let (_, _, called) =
        serve world str_of (with_cache (some cache) bus) (set_correlation_id cid query) context r s
          h' in
      ap (λ x. (wrap_result world str_of bus x, called)) results
      ∙ ap (λ k. (wrap_result world str_of bus result, k)) calls
