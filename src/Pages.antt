-- ===== src/Pages.antt =====
-- Queries: optional filters, and pages by offset and limit, as the list endpoints use them.
use guardian_pi.Base.{
  ℕ, zero, suc, ◌+◌, ◌-◌, ◌*◌, ◌≤◌, String, ◌≡◌, refl, ◌∙◌, ap, List, [], ◌∷◌, ◌++◌, Option, none,
  some, take, drop, filter, length, take-add, take_of_length-le, arith, map, true, ◌&&◌, leb, ◌==◌,
  if◌then◌else◌,
}
use mathlib.Core.List.{map-append}
use guardian_pi.Http.{Result, ok, http, require, ◌>>=◌, ◌>>◌}

-- `if value: query = query.where(Row.column == value)`
abbrev pub where_eq : {Row : Type 0} → (Row → String) → Option String → List Row → List Row
where_eq column none rows = rows
where_eq column (some value) rows =
    if value == "" then rows else filter (λ r. column r == value) rows

-- query.offset((page - 1) * page_size).limit(page_size)
unfoldable pub paginate : {Row : Type 0} → (page page_size : ℕ) → List Row → List Row
paginate page page_size rows = take page_size (drop ((page - 1) * page_size) rows)

-- [Response.model_validate(r) for r in rows]
unfoldable pub validate_all : {Row R : Type 0} → (Row → Result R) → List Row → Result (List R)
validate_all f [] = ok []
validate_all f (r ∷ rs) = do x ← f r; xs ← validate_all f rs; ok (x ∷ xs)

pub record ListResponse (R : Type 0) : Type 0 where
  pub items : List R
  pub total : ℕ
  pub page : ℕ
  pub page_size : ℕ

-- The end of a list endpoint, from the filtered query on: the bounds of `page` and `page_size`,
-- which the framework checks, the count, and the page.
unfoldable pub list_page :
    {Row R : Type 0}
    → (largest : ℕ) → (Row → Result R)
    → (page page_size : ℕ) → List Row
    → Result (ListResponse R)
list_page largest model_validate page page_size query = do
  require (leb 1 page && leb 1 page_size && leb page_size largest) (http 422 "Unprocessable Entity")
  items ← validate_all model_validate (paginate page page_size query)
  ok (record { items = items; total = length query; page = page; page_size = page_size })

-- What a client gets who asks for the pages 1 to n in turn.
unfoldable pub collect : {R : Type 0} → ℕ → (ℕ → Result (ListResponse R)) → Result (List R)
collect zero ask = ok []
collect (suc n) ask = do xs ← collect n ask; response ← ask (suc n); ok (xs ++ response.items)

-- The rows of the pages 1 to n, one after the other.
unfoldable pub pages : {Row : Type 0} → ℕ → (page_size : ℕ) → List Row → List Row
pages zero page_size rows = []
pages (suc n) page_size rows = pages n page_size rows ++ paginate (suc n) page_size rows

pub pages-eq-take :
    {Row : Type 0} (n page_size : ℕ) (rows : List Row)
    → pages n page_size rows ≡ take (n * page_size) rows
unfolding pages paginate
pages-eq-take zero page_size rows = ap (λ k. take k rows) none_yet
  where
    none_yet : 0 ≡ zero * page_size
    none_yet = omega arith
pages-eq-take (suc n) page_size rows =
    ap (λ xs. xs ++ take page_size (drop ((suc n - 1) * page_size) rows))
      (pages-eq-take n page_size rows)
    ∙ ap (λ k. take (n * page_size) rows ++ take page_size (drop (k * page_size) rows)) previous
    ∙ take-add (n * page_size) page_size rows
    ∙ ap (λ k. take k rows) one_more
  where
    previous : suc n - 1 ≡ n
    previous = omega arith

    one_more : n * page_size + page_size ≡ suc n * page_size
    one_more = grind arith

-- The pages from the first on give every row once and in order, as soon as they are enough.
pub pages_cover :
    {Row : Type 0} (n page_size : ℕ) (rows : List Row)
    → length rows ≤ n * page_size
    → pages n page_size rows ≡ rows
pages_cover n page_size rows h =
    pages-eq-take n page_size rows ∙ take_of_length-le (n * page_size) rows h

module _ {Row R : Type 0} (f : Row → R) where
  validate_all-map : (rs : List Row) → validate_all (λ r. ok (f r)) rs ≡ ok (map f rs)
  unfolding validate_all
  validate_all-map [] = refl
  validate_all-map (r ∷ rs) = rw (validate_all-map rs)

  -- Asking for each page in turn collects the whole query.
  pub collect-list_page :
      (largest page_size n : ℕ) (query : List Row)
      → 1 ≤ page_size
      → page_size ≤ largest
      → collect n (λ page. list_page largest (λ r. ok (f r)) page page_size query)
        ≡ ok (map f (pages n page_size query))
  unfolding collect pages list_page
  collect-list_page largest page_size zero query h k = refl
  collect-list_page largest page_size (suc n) query h k = rw (
    collect-list_page largest page_size n query h k,
    in_bounds,
    validate_all-map (paginate (suc n) page_size query),
    map-append,
  )
    where
      in_bounds : (leb 1 (suc n) && leb 1 page_size && leb page_size largest) ≡ true
      in_bounds = ground arith
