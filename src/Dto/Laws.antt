-- ===== src/Dto/Laws.antt =====
-- What the services can rely on after the ValidationPipe accepted a body or a query for a DTO of
-- libs/dto/src.
use Prim.Native.String as Text
use Prim.Native.Nat.{min}
use nestjs_microservice_plat.Prelude.{
  ◌≡◌, refl, ◌≤◌, ap, ◌⊎◌, inl, inr, ◌&&◌, ◌||◌, ℕ, ℤ, pos, negsuc, String, Bool, true, Option,
  none, some, arith, leb, subst,
}
use nestjs_microservice_plat.Js.{
  Value, null, bool, num, str, date, strs, nested, nan, Object, default, or_num, as_text, as_whole,
}
use nestjs_microservice_plat.Utils.Pagination.{PaginationQuery, normalize_pagination, at_least_one}
use nestjs_microservice_plat.Dto.{
  Dto, register_dto, change_password_dto, pagination_dto, strong, min_length, max_length,
}
use nestjs_microservice_plat.Dto.Password.{HasAllKinds, is_strong, is_strong-HasAllKinds}
use nestjs_microservice_plat.Dto.Validation.{
  Validator, texts, meets, numbers, from, up_to, is_missing,
}

-- The forms that set a password.
pub data PasswordForm : Type 0 where
  registering changing : PasswordForm

abbrev pub form_dto : PasswordForm → Dto
form_dto registering = register_dto
form_dto changing = change_password_dto

abbrev pub new_password : PasswordForm → Object → Option Value
new_password registering o = o "password"
new_password changing o = o "newPassword"

-- A password as the forms ask for it.
abbrev pub IsGood : String → Type 0
IsGood s = (8 ≤ Text.count s) × (Text.count s ≤ 128) × HasAllKinds s

texts-is_text :
    (test : String → Bool) (v : Option Value)
    → texts test v ≡ true
    → (s : String) × (v ≡ some (str s)) × (test s ≡ true)
texts-is_text test none h = ground arith
texts-is_text test (some (str s)) h = (s, refl, h)
texts-is_text test (some null) h = ground arith
texts-is_text test (some (bool b)) h = ground arith
texts-is_text test (some (num z)) h = ground arith
texts-is_text test (some (date d)) h = ground arith
texts-is_text test (some (strs ss)) h = ground arith
texts-is_text test (some (nested i)) h = ground arith
texts-is_text test (some nan) h = ground arith

meets-IsGood :
    (v : Option Value)
    → meets v (min_length 8) ≡ true
    → meets v (max_length 128) ≡ true
    → meets v strong ≡ true
    → (s : String) × (v ≡ some (str s)) × IsGood s
meets-IsGood v long short strong_v =
    let (s, v_is, s_strong) = texts-is_text is_strong v strong_v in
    let long_s : leb 8 (Text.count s) ≡ true =
      subst (λ w. meets w (min_length 8) ≡ true) v_is long in
    let short_s : leb (Text.count s) 128 ≡ true =
      subst (λ w. meets w (max_length 128) ≡ true) v_is short in
    (s, v_is, (ground arith, ground arith, is_strong-HasAllKinds s s_strong))

-- A body that is accepted for RegisterDto or ChangePasswordDto of libs/dto, which no application
-- imports, sets a password of 8 to 128 characters, with a lower-case letter, an upper-case letter,
-- a digit and another character.
pub accepted_password-IsGood :
    (validator : Validator) (form : PasswordForm) (o : Object)
    → validator.accepts (form_dto form) o ≡ true
    → (s : String) × (new_password form o ≡ some (str s)) × IsGood s
accepted_password-IsGood validator registering o ok =
    let all = validator.documented register_dto o ok in
    meets-IsGood (o "password") (ground arith) (ground arith) (ground arith)
accepted_password-IsGood validator changing o ok =
    let all = validator.documented change_password_dto o ok in
    meets-IsGood (o "newPassword") (ground arith) (ground arith) (ground arith)

-- The query that the fields of PaginationDto give to normalizePagination.
abbrev pub query_of : Object → PaginationQuery
query_of o = record {
  page = as_whole (o "page");
  limit = as_whole (o "limit");
  sort_by = as_text (o "sortBy");
  sort_order = as_text (o "sortOrder");
}

-- A field that is missing or a number with two properties.
numbers-cases :
    (low high : ℤ → Bool) (v : Option Value)
    → (is_missing v || numbers low v && numbers high v) ≡ true
    → (as_whole v ≡ none) ⊎ ((z : ℤ) × (as_whole v ≡ some z) × (low z ≡ true) × (high z ≡ true))
numbers-cases low high none h = inl refl
numbers-cases low high (some null) h = inl refl
numbers-cases low high (some (num z)) h = inr (z, refl, ground arith, ground arith)
numbers-cases low high (some (str s)) h = ground arith
numbers-cases low high (some (bool b)) h = ground arith
numbers-cases low high (some (date t)) h = ground arith
numbers-cases low high (some (strs ss)) h = ground arith
numbers-cases low high (some (nested i)) h = ground arith
numbers-cases low high (some nan) h = ground arith

or_num-from : (d : ℕ) (z : ℤ) → from 1 z ≡ true → pos (at_least_one (or_num (some z) (pos d))) ≡ z
or_num-from d (pos n) h = ground arith
or_num-from d (negsuc n) h = ground arith

page-normal :
    (v : Option Value)
    → (is_missing v || numbers (from 1) v && numbers (from 1) v) ≡ true
    → pos (at_least_one (or_num (as_whole v) (pos 1))) ≡ default (as_whole v) (pos 1)
page-normal v h = elim (numbers-cases (from 1) (from 1) v h) [
  | inl is_none ↦ rw is_none refl
  | inr (z, is_some, low, _) ↦ rw is_some (or_num-from 1 z low)
]

min-up_to : (n : ℕ) (z : ℤ) → pos n ≡ z → up_to 100 z ≡ true → pos (min 100 n) ≡ z
min-up_to n z same =
    subst (λ w. up_to 100 w ≡ true → pos (min 100 n) ≡ w) same
      (λ h. let small : n ≤ 100 = ground arith in ap pos (omega (arith, small)))

limit-normal :
    (v : Option Value)
    → (is_missing v || numbers (from 1) v && numbers (up_to 100) v) ≡ true
    → pos (min 100 (at_least_one (or_num (as_whole v) (pos 20)))) ≡ default (as_whole v) (pos 20)
limit-normal v h = elim (numbers-cases (from 1) (up_to 100) v h) [
  | inl is_none ↦ rw is_none refl
  | inr (z, is_some, low, high) ↦
      let limit = at_least_one (or_num (some z) (pos 20)) in
      rw is_some (min-up_to limit z (or_num-from 20 z low) high)
]

-- A query that is accepted for PaginationDto is left as it is by normalizePagination: the page and
-- the limit are those of the query, or 1 and 20 where it has none.
pub accepted_query-normal :
    (validator : Validator) (o : Object)
    → validator.accepts pagination_dto o ≡ true
    → let p = normalize_pagination (query_of o) in
      (pos p.page ≡ default (as_whole (o "page")) (pos 1))
      × (pos p.limit ≡ default (as_whole (o "limit")) (pos 20))
unfolding normalize_pagination
accepted_query-normal validator o ok =
    let all = validator.documented pagination_dto o ok in
    (page-normal (o "page") (ground arith), limit-normal (o "limit") (ground arith))
