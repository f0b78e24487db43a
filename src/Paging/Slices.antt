-- ===== src/Paging/Slices.antt =====
-- Which items the pages of a list hold.
use pyfly.Common.{
  ℕ, ◌+◌, ◌-◌, ◌*◌, ◌≤◌, ◌<◌, true, ◌≡◌, ◌↔◌, some, ap, ◌∙◌, subst, max, ltb, Bool-cases, inl, inr,
  arith,
}
use native.Mathlib.Nat.{add-mul, mul-le-mul_right}
use pyfly.Common.Effects.{ok}
use pyfly.Paging.{
  Pageable, of, offset, next, previous, Page, unpaged_sentinel_size, total_pages, has_next,
}

-- Rounding up, a number is below a quotient exactly if its multiple is below the dividend.
lt-ceil : (n a b q : ℕ) → 0 < b → (b * q < a + b) × (a ≤ b * q) → n < q ↔ n * b < a
lt-ceil n a b q pos (above, below) = (
  λ low. omega (arith, mul-le-mul_right b low),
  λ short. elim (Bool-cases (ltb n q)) [
    | inl low ↦ ground arith
    | inr high ↦ let le : q ≤ n = ground arith in absurd (omega (arith, mul-le-mul_right b le))
  ],
)

-- What IEEE 754 doubles give: for totals up to 2 ^ 53, and sizes of a machine word, the rounding of
-- the quotient does not pass over a whole number, so that it rounds up to the right one.
abbrev pub IsCeil : (ℕ → ℕ → ℕ) → Type 0
IsCeil ceil_quotient =
    (a b : ℕ)
    → 0 < b
    → a ≤ 9007199254740992
    → b ≤ unpaged_sentinel_size
    → (b * ceil_quotient a b < a + b) × (a ≤ b * ceil_quotient a b)

module _ {T : Type 0} (ceil_quotient : ℕ → ℕ → ℕ) (ceil : IsCeil ceil_quotient) where
  -- A page with a size above 0 that is not above sys.maxsize, of a list of at most 2 ^ 53 items,
  -- has, if the quotient of floats rounds up to the right number within these bounds, a next page
  -- exactly if items of the whole list come after it.
  pub has_next_iff :
      (p : Page T)
      → 0 < p.size
      → p.total ≤ 9007199254740992
      → p.size ≤ unpaged_sentinel_size
      → has_next ceil_quotient p ≡ some true ↔ p.page * p.size < p.total
  unfolding has_next total_pages
  has_next_iff p pos few fits = ground (
    arith,
    lt-ceil p.page p.total p.size (ceil_quotient p.total p.size) pos
        (ceil p.total p.size pos few fits),
  )

page_up : (n : ℕ) → 1 ≤ n → n + 1 - 1 ≡ (n - 1) + 1
page_up n pos = omega arith

page_back : (n : ℕ) → 1 ≤ n → n ≡ max 1 (n + 1 - 1)
page_back n pos = omega arith

of-valid : (p : Pageable) → 1 ≤ p.page → 1 ≤ p.size → of p.page p.size p.sort ≡ ok p
unfolding of
of-valid p page size = ground arith

-- From a pageable with a page and a size above 0, the next one is valid, begins where this one ends,
-- and the one previous to it is this one.
pub previous-next :
    (p : Pageable)
    → 1 ≤ p.page
    → 1 ≤ p.size
    → (q : Pageable) × (next p ≡ ok q) × (offset q ≡ offset p + p.size) × (previous q ≡ ok p)
unfolding next previous of offset
previous-next p page size = (
  record p { page = p.page + 1 },
  ground arith,
  ap (λ x. x * p.size) (page_up p.page page) ∙ omega (arith, add-mul (p.page - 1) 1 p.size),
  subst (λ x. of x p.size p.sort ≡ ok p) (page_back p.page page) (of-valid p page size),
)
