-- ===== src/Utils/Pagination.antt =====
-- libs/common/src/utils/pagination.util.ts and libs/common/src/interfaces/pagination.interface.ts.
-- Pages and limits are whole numbers; `none` is a number that is missing or `NaN`.
use Prim.Native.Nat.{min, max}
use nestjs_microservice_plat.Prelude.{
  ℕ, ◌+◌, ◌-◌, ◌*◌, ◌/◌, ℤ, pos, negsuc, String, List, [], ◌∷◌, Bool, true, false, Option, none,
  some, ◌==◌, nat_eq, ltb, if◌then◌else◌,
}
use nestjs_microservice_plat.Js.{or_num, or_text}
use nestjs_microservice_plat.Database.{Direction, ascending, descending}

pub record PaginationQuery : Type 0 where
  pub page : Option ℤ
  pub limit : Option ℤ
  pub sort_by : Option String
  pub sort_order : Option String

pub record NormalizedPagination : Type 0 where
  pub page : ℕ
  pub limit : ℕ
  pub skip : ℕ
  pub sort : List (String × Direction)

-- `Math.max(1, n)`
abbrev pub at_least_one : ℤ → ℕ
at_least_one (pos n) = max 1 n
at_least_one (negsuc n) = 1

abbrev pub is_asc : Option String → Bool
is_asc none = false
is_asc (some s) = s == "asc"

unfoldable pub normalize_pagination : PaginationQuery → NormalizedPagination
normalize_pagination query =
    let page = at_least_one (or_num query.page (pos 1)) in
    let limit = min 100 (at_least_one (or_num query.limit (pos 20))) in
    record {
      page = page;
      limit = limit;
      skip = (page - 1) * limit;
      sort =
          (
            or_text query.sort_by "createdAt",
            if is_asc query.sort_order then ascending else descending,
          )
          ∷ [];
    }

-- A number of pages: a limit of 0 makes JavaScript's division infinite, or no number.
pub data PageCount : Type 0 where
  finite : ℕ → PageCount
  infinite nan : PageCount

-- `Math.max(1, Math.ceil(total / limit))`
unfoldable pub total_pages : ℕ → ℕ → PageCount
total_pages total limit =
    if nat_eq limit 0
    then (if nat_eq total 0 then nan else infinite)
    else finite (max 1 ((total + limit - 1) / limit))

-- `page < totalPages`
abbrev pub below : ℕ → PageCount → Bool
below page (finite n) = ltb page n
below page infinite = true
below page nan = false

pub record Meta : Type 0 where
  pub total : ℕ
  pub page : ℕ
  pub limit : ℕ
  pub pages : PageCount
  pub has_next : Bool
  pub has_prev : Bool

pub record PaginatedResult {ℓ} (T : Type ℓ) : Type ℓ where
  pub items : List T
  pub meta : Meta

unfoldable pub build_paginated_result {ℓ} : {T : Type ℓ} → List T → ℕ → ℕ → ℕ → PaginatedResult T
unfolding total_pages
build_paginated_result items total page limit =
    let pages = total_pages total limit in
    record {
      items = items;
      meta = record {
        total = total;
        page = page;
        limit = limit;
        pages = pages;
        has_next = below page pages;
        has_prev = ltb 1 page;
      };
    }
