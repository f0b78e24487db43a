-- ===== src/Paging.antt =====
-- data/pageable.py and data/page.py: requests for a page and the pages that answer them. A page
-- number or a size below 0 is not modelled; such a request is refused like 0.
pub mod Slices
mod Tests
use pyfly.Common.{
  ℕ, zero, suc, ◌+◌, ◌-◌, ◌*◌, ◌/◌, String, Bool, true, false, not, List, [], ◌∷◌, ◌++◌, map, max,
  ltb, Option, none, some, ◌==◌, if◌then◌else◌,
}
use mathlib.Core.Option
use pyfly.Common.Effects.{Result, ok, err, value_error}

pub data Direction : Type 0 where
  asc desc : Direction

pub record Order : Type 0 where
  pub property : String
  pub direction : Direction

abbrev pub Sort : Type 0
Sort = List Order

-- Sort.by
unfoldable pub by : List String → Sort
by [] = []
by (p ∷ properties) = record { property = p; direction = asc } ∷ by properties

unfoldable pub and_then : Sort → Sort → Sort
and_then sort other = sort ++ other

unfoldable pub descending : Sort → Sort
descending [] = []
descending (o ∷ orders) = record { property = o.property; direction = desc } ∷ descending orders

unfoldable pub ascending : Sort → Sort
ascending [] = []
ascending (o ∷ orders) = record { property = o.property; direction = asc } ∷ ascending orders

-- sys.maxsize, on a machine with 64-bit pointers
abbrev pub unpaged_sentinel_size : ℕ
unpaged_sentinel_size = 9223372036854775807

pub record Pageable : Type 0 where
  pub page : ℕ
  pub size : ℕ
  pub sort : Sort

abbrev pub is_paged : Pageable → Bool
is_paged p = not (p.size == unpaged_sentinel_size)

-- __post_init__
unfoldable pub of : (page size : ℕ) → Sort → Result Pageable
of page size sort =
    let p : Pageable = record { page = page; size = size; sort = sort } in
    if size == unpaged_sentinel_size
    then ok p
    else (if ltb page 1 then err value_error else (if ltb size 1 then err value_error else ok p))

unfoldable pub unpaged : Pageable
unpaged = record { page = 1; size = unpaged_sentinel_size; sort = [] }

unfoldable pub offset : Pageable → ℕ
offset p = (p.page - 1) * p.size

unfoldable pub next : Pageable → Result Pageable
unfolding of
next p = of (p.page + 1) p.size p.sort

unfoldable pub previous : Pageable → Result Pageable
unfolding of
previous p = of (max 1 (p.page - 1)) p.size p.sort

pub record Page (T : Type 0) : Type 0 where
  pub items : List T
  pub total : ℕ
  pub page : ℕ
  pub size : ℕ

-- `ceil_quotient a b` is math.ceil(a / b), with the quotient of floats, for a `b` above 0.
module _ {T : Type 0} (ceil_quotient : ℕ → ℕ → ℕ) where
  -- `none` is the ZeroDivisionError.
  unfoldable pub total_pages : Page T → Option ℕ
  total_pages p =
      if p.total == 0
      then some 0
      else (if p.size == 0 then none else some (ceil_quotient p.total p.size))

  unfoldable pub has_next : Page T → Option Bool
  unfolding total_pages
  has_next p = Option.map (ltb p.page) (total_pages p)

module _ {T : Type 0} where
  unfoldable pub has_previous : Page T → Bool
  has_previous p = ltb 1 p.page

module _ {T U : Type 0} where
  -- Page.map
  unfoldable pub map_page : (T → U) → Page T → Page U
  map_page func p = record {
    items = map func p.items;
    total = p.total;
    page = p.page;
    size = p.size;
  }
