-- ===== src/Paging/Tests.antt =====
-- Pages of concrete lists.
use pyfly.Common.{ℕ, ◌+◌, ◌-◌, ◌*◌, ◌/◌, ◌<◌, true, ◌≡◌, ◌↔◌, some, [], ◌∷◌, refl, arith}
use native.Mathlib.Nat.{mul-div-le, lt-mul-div-succ}
use pyfly.Common.Effects.{ok, err, value_error}
use pyfly.Paging.{Page, Pageable, has_next, total_pages, next, previous, of, offset, by}
use pyfly.Paging.Slices.{IsCeil, has_next_iff, previous-next}

abbrev third : Page ℕ
third = record { items = 21 ∷ []; total = 21; page = 2; size = 10 }

abbrev request : Pageable
request = record { page = 2; size = 10; sort = [] }

-- Rounding up without floats.
abbrev exact : ℕ → ℕ → ℕ
exact a b = (a + (b - 1)) / b

exact-IsCeil : IsCeil exact
exact-IsCeil a b pos few fits =
    let q = (a + (b - 1)) / b in
    (omega (arith, mul-div-le (a + (b - 1)) b), omega (arith, lt-mul-div-succ (a + (b - 1)) pos))

has_next_iff_example : has_next exact third ≡ some true ↔ third.page * third.size < third.total
has_next_iff_example =
    has_next_iff exact exact-IsCeil third (omega arith) (omega arith) (omega arith)

three_pages : (total_pages exact third ≡ some 3) × (has_next exact third ≡ some true)
unfolding total_pages has_next
three_pages = (refl, refl)

previous-next_example :
    (q : Pageable) × (next request ≡ ok q)
    × (offset q ≡ offset request + request.size)
    × (previous q ≡ ok request)
previous-next_example = previous-next request (omega arith) (omega arith)

page_zero_refused : of 0 10 (by []) ≡ err value_error
unfolding of by
page_zero_refused = refl
