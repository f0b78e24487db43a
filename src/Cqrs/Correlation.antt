-- ===== src/Cqrs/Correlation.antt =====
-- cqrs/tracing/correlation.py: the context variables of tracing, and the headers that carry them. The
-- identifier that uuid4 draws is an argument.
use pyfly.Common.{
  String, Option, none, some, [], Dict, lookup, insert, ◌≡◌, refl, ap, ◌∙◌, str_eq, if◌then◌else◌,
  arith, lookup-insert,
}

pub record Context : Type 0 where
  pub correlation_id : Option String
  pub trace_id : Option String
  pub span_id : Option String

abbrev pub cleared : Context
cleared = record { correlation_id = none; trace_id = none; span_id = none }

abbrev header_correlation_id : String
header_correlation_id = "X-Correlation-ID"

abbrev header_trace_id : String
header_trace_id = "X-Trace-ID"

abbrev header_span_id : String
header_span_id = "X-Span-ID"

abbrev pub get_or_create_correlation_id : String → Context → String × Context
get_or_create_correlation_id drawn c = elim c.correlation_id [
  | none ↦ (drawn, record c { correlation_id = some drawn })
  | some cid ↦ (cid, c)
]

-- `or` on texts: none and the empty text are passed over.
abbrev pub truthy : Option String → Option String
truthy none = none
truthy (some text) = if str_eq text "" then none else some text

abbrev write : String → Option String → Dict String → Dict String
unfolding insert
write header none headers = headers
write header (some text) headers = insert header text headers

unfoldable pub create_context_headers : Context → Dict String
unfolding insert
create_context_headers c = write header_span_id (truthy c.span_id) (
    write header_trace_id (truthy c.trace_id)
      (write header_correlation_id (truthy c.correlation_id) []))

abbrev keep : Option String → Option String → Option String
keep none before = before
keep (some text) before = some text

unfoldable pub extract_context_from_headers : Dict String → Context → Context
unfolding lookup
extract_context_from_headers headers c = record {
  correlation_id = keep (truthy (lookup header_correlation_id headers)) c.correlation_id;
  trace_id = keep (truthy (lookup header_trace_id headers)) c.trace_id;
  span_id = keep (truthy (lookup header_span_id headers)) c.span_id;
}

truthy-truthy : (o : Option String) → truthy (truthy o) ≡ truthy o
truthy-truthy none = refl
truthy-truthy (some text) = ground arith

lookup-write :
    (k header : String) (o : Option String) (headers : Dict String)
    → lookup k (write header o headers)
      ≡ (if str_eq header k then keep o (lookup k headers) else lookup k headers)
unfolding write
lookup-write k header none headers = ground arith
lookup-write k header (some text) headers = ground (arith, lookup-insert header k text headers)

keep-none : (o : Option String) → keep o none ≡ o
keep-none none = refl
keep-none (some text) = refl

abbrev headers_of : (a b c : Option String) → Dict String
unfolding write
headers_of a b c =
    write header_span_id c (write header_trace_id b (write header_correlation_id a []))

lookup-headers_of :
    (a b c : Option String)
    → (lookup header_correlation_id (headers_of a b c) ≡ a)
      × (lookup header_trace_id (headers_of a b c) ≡ b)
      × (lookup header_span_id (headers_of a b c) ≡ c)
unfolding headers_of lookup
lookup-headers_of a b c =
    let cid = write header_correlation_id a [] in
    let tid = write header_trace_id b cid in
    (
      lookup-write header_correlation_id header_span_id c tid
          ∙ (lookup-write header_correlation_id header_trace_id b cid
              ∙ (lookup-write header_correlation_id header_correlation_id a [] ∙ keep-none a)),
      lookup-write header_trace_id header_span_id c tid
          ∙ (lookup-write header_trace_id header_trace_id b cid
              ∙ (ap (keep b) (lookup-write header_trace_id header_correlation_id a [])
                  ∙ keep-none b)),
      lookup-write header_span_id header_span_id c tid
          ∙ (ap (keep c) (
                lookup-write header_span_id header_trace_id b cid
                ∙ lookup-write header_span_id header_correlation_id a [])
              ∙ keep-none c),
    )

same_context :
    {a b c a' b' c' : Option String}
    → a ≡ a'
    → b ≡ b'
    → c ≡ c'
    → ◌≡◌ {A = Context}
        (record { correlation_id = a; trace_id = b; span_id = c })
        (record { correlation_id = a'; trace_id = b'; span_id = c' })
same_context p q r = cc

is_kept :
    {x : Option String} (y before : Option String)
    → x ≡ truthy y
    → keep (truthy x) before ≡ keep (truthy y) before
is_kept y before e = ap (λ z. keep (truthy z) before) e ∙ ap (λ z. keep z before) (truthy-truthy y)

-- The headers made of one context and read into another carry each identifier that is not empty, and
-- leave the others of the second context as they were.
pub extract_context_from_headers-create_context_headers :
    (sent received : Context)
    → extract_context_from_headers (create_context_headers sent) received ≡ record {
      correlation_id = keep (truthy sent.correlation_id) received.correlation_id;
      trace_id = keep (truthy sent.trace_id) received.trace_id;
      span_id = keep (truthy sent.span_id) received.span_id;
    }
unfolding extract_context_from_headers create_context_headers headers_of
extract_context_from_headers-create_context_headers sent received =
    let (first, second, third) =
      lookup-headers_of (truthy sent.correlation_id) (truthy sent.trace_id) (truthy sent.span_id) in
    same_context (is_kept sent.correlation_id received.correlation_id first)
      (is_kept sent.trace_id received.trace_id second) (is_kept sent.span_id received.span_id third)
