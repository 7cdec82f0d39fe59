-- ===== src/Utils/PaginationLaws.antt =====
-- A normalised query is safe for the database, and its pages tile the items.
use Prim.Native.Nat.{min, max}
use nestjs_microservice_plat.Prelude.{
  ℕ, zero, suc, ℤ, negsuc, ◌+◌, ◌-◌, ◌*◌, ◌/◌, ◌≤◌, ◌<◌, ◌≡◌, ◌↔◌, pos, List, true, arith, ltb,
  ltb→lt, lt→ltb,
}
use native.Mathlib.Nat.{le-div_iff_mul-le, div-mul-le_self, lt-div-mul-add, div-eq_of_lt-le}
use nestjs_microservice_plat.Js.{or_num}
use nestjs_microservice_plat.Utils.Pagination.{
  PaginationQuery, normalize_pagination, finite, total_pages, at_least_one, below,
  build_paginated_result,
}

at_least_one_pos : (z : ℤ) → 1 ≤ at_least_one z
at_least_one_pos (pos n) = omega arith
at_least_one_pos (negsuc n) = omega arith

mul-pred : (p l : ℕ) → 1 ≤ p → (p - 1) * l + l ≡ p * l
mul-pred zero l h = elim h [ ]
mul-pred (suc p) l h = let e : suc p - 1 ≡ p = omega arith in rw e (omega arith)

-- Whatever the query, the normalised page is at least 1, the limit lies between 1 and 100 and the
-- skipped items are those of the pages before.
pub normalize_pagination_bounds :
    (q : PaginationQuery)
    → let p = normalize_pagination q in
      (1 ≤ p.page) × (1 ≤ p.limit) × (p.limit ≤ 100) × (p.skip + p.limit ≡ p.page * p.limit)
unfolding normalize_pagination
normalize_pagination_bounds q =
    let page = at_least_one (or_num q.page (pos 1)) in
    let limit = min 100 (at_least_one (or_num q.limit (pos 20))) in
    let hp = at_least_one_pos (or_num q.page (pos 1)) in
    let hl = at_least_one_pos (or_num q.limit (pos 20)) in
    (hp, omega (arith, hl), omega arith, mul-pred page limit hp)

-- A page is below the rounded-up quotient exactly when items are left behind it.
lt-ceil_iff : (total page l : ℕ) → (page < (total + suc l - 1) / suc l) ↔ (page * suc l < total)
lt-ceil_iff total page l =
    let k : (suc page ≤ (total + suc l - 1) / suc l) ↔ (suc page * suc l ≤ total + suc l - 1) =
      le-div_iff_mul-le (omega arith) in
    (λ h. omega (arith, k.0 h), λ h. k.1 (omega arith))

total_pages-suc :
    (total l : ℕ) → total_pages total (suc l) ≡ finite (max 1 ((total + suc l - 1) / suc l))
unfolding total_pages
total_pages-suc total l = ground arith

has_next_lem :
    (total page l : ℕ)
    → 1 ≤ page
    → (below page (total_pages total (suc l)) ≡ true) ↔ (page * suc l < total)
has_next_lem total page l hp = rw (total_pages-suc total l) (
    let k = lt-ceil_iff total page l in
    let last = max 1 ((total + suc l - 1) / suc l) in
    (λ h. k.0 (omega (arith, ltb→lt page last h)), λ h. lt→ltb page last (omega (arith, k.1 h))))

has_prev_lem : (page l : ℕ) → 1 ≤ page → (ltb 1 page ≡ true) ↔ (0 < (page - 1) * suc l)
has_prev_lem zero l hp = elim hp [ ]
has_prev_lem (suc zero) l hp =
    (λ h. absurd (omega (arith, ltb→lt 1 1 h)), λ h. absurd (omega arith))
has_prev_lem (suc (suc p)) l hp =
    let e : suc (suc p) - 1 ≡ suc p = omega arith in
    (λ h. rw e (omega arith), λ h. lt→ltb 1 (suc (suc p)) (omega arith))

-- For a page and a limit that are at least 1, hasNext holds exactly when items are left after the
-- page, and hasPrev exactly when items were skipped.
pub has_next_iff :
    {T : Type 0} (items : List T) (total page limit : ℕ)
    → 1 ≤ page
    → 1 ≤ limit
    → let m = (build_paginated_result items total page limit).meta in
      ((m.has_next ≡ true) ↔ (page * limit < total))
      × ((m.has_prev ≡ true) ↔ (0 < (page - 1) * limit))
unfolding build_paginated_result
has_next_iff items total page zero hp hl = elim hl [ ]
has_next_iff items total page (suc l) hp hl = (has_next_lem total page l hp, has_prev_lem page l hp)

-- The items of a page, by their places.
abbrev pub OnPage : ℕ → ℕ → ℕ → Type 0
OnPage limit page i = (1 ≤ page) × ((page - 1) * limit ≤ i) × (i < (page - 1) * limit + limit)

same_page :
    (l i q : ℕ) → 1 ≤ q → (q - 1) * suc l ≤ i → i < (q - 1) * suc l + suc l → q ≡ i / suc l + 1
same_page l i zero h low high = elim h [ ]
same_page l i (suc q) h low high =
    let e : suc q - 1 ≡ q = omega arith in
    let low' : q * suc l ≤ i = rw e at low in
    let high' : i < q * suc l + suc l = rw e at high in
    let k : i / suc l ≡ q = div-eq_of_lt-le (suc l) low' (omega arith) in omega arith

-- For a limit that is at least 1 each item is on exactly one page, and that page is at most
-- totalPages.
pub pages_tile :
    (total limit i n : ℕ)
    → 1 ≤ limit
    → i < total
    → total_pages total limit ≡ finite n
    → (page : ℕ) × OnPage limit page i × (page ≤ n) × ((q : ℕ) → OnPage limit q i → q ≡ page)
unfolding total_pages
pages_tile total zero i n hl hi e = elim hl [ ]
pages_tile total (suc l) i n hl hi e =
    let here = i / suc l in
    let e1 : here + 1 - 1 ≡ here = omega arith in
    let low : here * suc l ≤ i = div-mul-le_self i (suc l) in
    let high : i < here * suc l + suc l = lt-div-mul-add (omega arith) in
    let counted : max 1 ((total + suc l - 1) / suc l) ≡ n = ground arith in
    let inside = (lt-ceil_iff total here l).1 (omega arith) in
    (
      here + 1,
      (omega arith, rw e1 low, rw e1 high),
      omega arith,
      λ q h. same_page l i q h.0 h.1 h.2,
    )
