-- ===== src/Cqrs/QueryBus/Caching.antt =====
-- cqrs/query/bus.py: what a query's cache answers when the query comes again.
use pyfly.Common.{
  ℕ, ◌+◌, ◌≤◌, String, Option, none, some, List, Dict, lookup, insert, ◌≡◌, sym, ap, ◌∙◌, inl, inr,
  arith, lookup-insert, eq_iff,
}
use pyfly.Common.Effects.{Exception, Result, ok, err, World, continue, Result-cases}
use pyfly.Cache.{Entry, get, put, get_entry}
use pyfly.Cache.Manager.{in_memory}
use pyfly.Cqrs.Messages.{Value, Message, Handler, Event}
use pyfly.Cqrs.Registry.{find_query_handler}
use pyfly.Cqrs.Admission.{check}
use pyfly.Cqrs.Handling.{handle}
use pyfly.Cqrs.QueryBus.{
  DefaultQueryBus, cache_key_of, ttl_of, hit, try_cache_get, try_cache_put, admit, find_handler,
  keep_result, run_handler, serve, run_query,
}
use pyfly.Cqrs.QueryBus.Down.{with_cache}

-- A text that is put is found until its time to live has passed.
in_memory-put :
    (key : String) (v : Value) (ttl now later : ℕ) (store : Dict (Entry Value))
    → later ≤ now + ttl
    → get key later (put key v (some ttl) now store) ≡ (some v, put key v (some ttl) now store)
unfolding get put get_entry
in_memory-put key v ttl now later store within =
    let entry : Entry Value = record { value = v; expires_at = some (now + ttl) } in
    let found : lookup key (insert key entry store) ≡ some entry =
      ground (arith, lookup-insert key key entry store, eq_iff key key) in
    ap (get_entry key later (insert key entry store)) found ∙ ground arith

module _ (world : World Event Value) (str_of : Exception → String)
    (plain : DefaultQueryBus (ℕ × Dict (Entry Value))) (query : Message) (handler : Handler)
    (key : String) (keyed : cache_key_of query handler ≡ some key) where
  abbrev bus : DefaultQueryBus (ℕ × Dict (Entry Value))
  bus = with_cache (some in_memory) plain

  abbrev seconds : ℕ
  seconds = ttl_of handler.cache_ttl_seconds plain.default_cache_ttl

  abbrev kept : Value → ℕ → Dict (Entry Value) → ℕ × Dict (Entry Value)
  unfolding put
  kept result now store = (now, put key result (some seconds) now store)

  keep_result-kept :
      (r : Result Value) (result : Value) (now : ℕ) (store : Dict (Entry Value))
      (s : ℕ × Dict (Entry Value)) (h h' : List Event)
      → keep_result world str_of bus query handler r (now, store) h ≡ (ok result, s, h')
      → s ≡ kept result now store
  unfolding keep_result try_cache_put kept in_memory
  keep_result-kept (err exc) result now store s h h' ran =
      let no : ◌≡◌ {A = Result Value} (err exc) (ok result) =
        ap (λ (x : Result Value × (ℕ × Dict (Entry Value)) × List Event). x.0) ran in
      cc
  keep_result-kept (ok v) result now store s h h' ran =
      let same : ◌≡◌ {A = Result Value} (ok v) (ok result) =
        ap (λ (x : Result Value × (ℕ × Dict (Entry Value)) × List Event). x.0) ran in
      let equal : v ≡ result = cc in
      sym (ap (λ (x : Result Value × (ℕ × Dict (Entry Value)) × List Event). x.1) ran)
      ∙ (ap (λ o. try_cache_put (some in_memory) o v seconds (now, store)) keyed
          ∙ ap (λ x. kept x now store) equal)

  serve-kept :
      (context : Option ℕ) (result : Value) (now later : ℕ) (store : Dict (Entry Value))
      (k : List Event)
      → hit (ok (some result)) ≡ some result
      → later ≤ now + seconds
      → let s : ℕ × Dict (Entry Value) = (later, (kept result now store).1) in
        serve world str_of bus query context (ok handler) s k ≡ (ok result, s, k)
  unfolding serve try_cache_get run_handler kept in_memory
  serve-kept context result now later store k real within =
      let s : ℕ × Dict (Entry Value) = (later, (kept result now store).1) in
      let found : (in_memory).get key s ≡ (ok (some result), s) =
        ap (λ (x : Option Value × Dict (Entry Value)). (ok x.0, (later, x.1)))
          (in_memory-put key result seconds now later store within) in
      let got : try_cache_get (some in_memory) (cache_key_of query handler) s ≡ (some result, s) =
        ap (λ o. try_cache_get (some in_memory) o s) keyed
        ∙ (ap (λ (x : Result (Option Value) × (ℕ × Dict (Entry Value))). (hit x.0, x.1)) found
            ∙ ap (λ o. (o, s)) real) in
      ap
        (λ (x : Option Value × (ℕ × Dict (Entry Value))).
          run_handler world str_of bus query context handler x.0 x.1 k)
        got

  serve-missed :
      (context : Option ℕ) (result : Value) (now : ℕ) (store : Dict (Entry Value))
      (s : ℕ × Dict (Entry Value)) (h h' : List Event)
      → (get key now store).0 ≡ none
      → serve world str_of bus query context (ok handler) (now, store) h ≡ (ok result, s, h')
      → s ≡ kept result now (get key now store).1
  unfolding serve try_cache_get run_handler in_memory kept
  serve-missed context result now store s h h' missing ran =
      let found = get key now store in
      let got : try_cache_get (some in_memory) (cache_key_of query handler) (now, store)
          ≡ (none, (now, found.1)) =
        ap (λ o. try_cache_get (some in_memory) o (now, store)) keyed
        ∙ ap (λ (x : Option Value). (hit (ok x), (now, found.1))) missing in
      let (r, h'') = handle world handler query context h in
      keep_result-kept r result now found.1 s h'' h' (
        sym (
          ap
            (λ (x : Option Value × (ℕ × Dict (Entry Value))).
              run_handler world str_of bus query context handler x.0 x.1 h)
            got)
        ∙ ran)

  module _ (found : find_query_handler query.message_type plain.registry ≡ ok handler) where
    admit-checked :
        (context : Option ℕ) (k : List Event)
        → (check world str_of plain.services query context k).0 ≡ ok tt
        → admit world str_of bus query context k
          ≡ (ok handler, (check world str_of plain.services query context k).1)
    unfolding admit find_handler
    admit-checked context k passed =
        let checked = (check world str_of plain.services query context k).1 in
        ap (λ r. continue r (λ _. find_handler world str_of bus query.message_type) checked) passed
        ∙ ap (λ r. (r, checked)) found

    admit-refused :
        (context : Option ℕ) (k : List Event) (e : Exception)
        → (check world str_of plain.services query context k).0 ≡ err e
        → admit world str_of bus query context k
          ≡ (err e, (check world str_of plain.services query context k).1)
    unfolding admit
    admit-refused context k e refused =
        ap
          (λ r.
            continue r (λ _. find_handler world str_of bus query.message_type)
              (check world str_of plain.services query context k).1)
          refused

    -- With the in-memory cache, for a query that may be cached, has a cache key and a handler that
    -- supports caching: once it was answered with a result other than None, after the cache held
    -- nothing for it, it is answered from the cache when it comes again and passes the checks,
    -- until the time to live has passed, with the same result, no call of the handler and nothing
    -- changed in the cache.
    pub run_query-run_query :
        (context again : Option ℕ) (result : Value) (now later : ℕ) (store : Dict (Entry Value))
        (s : ℕ × Dict (Entry Value)) (h h' k : List Event)
        → (get key now store).0 ≡ none
        → hit (ok (some result)) ≡ some result
        → run_query world str_of bus query context (now, store) h ≡ (ok result, s, h')
        → later ≤ now + seconds
        → (check world str_of plain.services query again k).0 ≡ ok tt
        → run_query world str_of bus query again (later, s.1) k
          ≡ (ok result, (later, s.1), (check world str_of plain.services query again k).1)
    unfolding run_query serve kept
    run_query-run_query context again result now later store s h h' k missing real first within
          passed =
        let checked = (check world str_of plain.services query again k).1 in
        elim (Result-cases (check world str_of plain.services query context h).0) [
          | inl (_, checks) ↦
              let is =
                serve-missed context result now store s
                  (check world str_of plain.services query context h).1 h' missing
                  (sym (
                      ap
                        (λ (x : Result Handler × List Event).
                          serve world str_of bus query context x.0 (now, store) x.1)
                        (admit-checked context h checks))
                    ∙ first) in
              ap
                (λ (x : Result Handler × List Event).
                  serve world str_of bus query again x.0 (later, s.1) x.1)
                (admit-checked again k passed)
              ∙ (ap
                    (λ (t : ℕ × Dict (Entry Value)).
                      serve world str_of bus query again (ok handler) (later, t.1) checked)
                    is
                  ∙ (serve-kept again result now later (get key now store).1 checked real within
                      ∙ sym (
                          ap (λ (t : ℕ × Dict (Entry Value)). (ok result, (later, t.1), checked))
                            is)))
          | inr (e, refused) ↦
              let no : ◌≡◌ {A = Result Value} (err e) (ok result) =
                ap (λ (x : Result Value × (ℕ × Dict (Entry Value)) × List Event). x.0)
                  (sym (
                      ap
                        (λ (x : Result Handler × List Event).
                          serve world str_of bus query context x.0 (now, store) x.1)
                        (admit-refused context h e refused))
                    ∙ first) in
              cc
        ]
