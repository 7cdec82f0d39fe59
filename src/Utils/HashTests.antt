-- ===== src/Utils/HashTests.antt =====
-- The hashes of two queries.
use nestjs_microservice_plat.Prelude.{
  ℕ, ◌≡◌, refl, pos, subst, eq_iff, ◌==◌, false, String, ◌∷◌, true, none, some, includes, arith,
}
use nestjs_microservice_plat.Utils.Hash.{
  JsonValue, num, str, obj, JsonFields, field, end, field_names, find_field, stable_hash,
  object_keys, sort, insert_key, before, restrict, restrict_fields, pick, add_field, first,
  unit_rank,
}
use nestjs_microservice_plat.Utils.HashLaws.{
  Alike, objects, swap, stable_hash-Alike, stable_hash-forgets,
}

abbrev one_digit : ℕ → String
one_digit n = "0"

-- The name of the first field stands for the text, and the text for its digest.
abbrev first_field : JsonValue → String
first_field (obj (field k v fs)) = k
first_field v = "?"

abbrev digest : String → String
digest s = s

abbrev by_page : JsonFields
by_page = field "sort" (str "name") (field "page" (num (pos 2)) end)

abbrev by_sort : JsonFields
by_sort = field "page" (num (pos 2)) (field "sort" (str "name") end)

by_page-Alike : Alike (obj by_page) (obj by_sort)
by_page-Alike = objects by_page by_sort (swap "sort" "page" (str "name") (num (pos 2)) end refl)

stable_hash-Alike_example :
    stable_hash one_digit first_field digest (obj by_page)
    ≡ stable_hash one_digit first_field digest (obj by_sort)
stable_hash-Alike_example =
    stable_hash-Alike one_digit first_field digest (obj by_page) (obj by_sort) by_page-Alike

abbrev published : JsonFields
published = field "status" (str "published") end

abbrev drafts : JsonFields
drafts = field "status" (str "draft") end

apart :
    (j : String)
    → includes ("filter" ∷ field_names end) j ≡ true
    → (find_field j published ≡ none) × (find_field j drafts ≡ none)
unfolding find_field field_names
apart j h =
    let is_filter : "filter" ≡ j = (eq_iff "filter" j).0 (ground arith) in
    let no_status : (j == "status") ≡ false = subst (λ x. (x == "status") ≡ false) is_filter refl in
    (rw no_status refl, rw no_status refl)

-- The lists of published posts and of drafts are kept under one key.
stable_hash-forgets_example :
    stable_hash one_digit first_field digest (obj (field "filter" (obj published) end))
    ≡ stable_hash one_digit first_field digest (obj (field "filter" (obj drafts) end))
stable_hash-forgets_example =
    stable_hash-forgets one_digit first_field digest "filter" published drafts end apart

sorted_keys : stable_hash one_digit first_field digest (obj by_page) ≡ some "page"
unfolding stable_hash object_keys sort insert_key before restrict restrict_fields pick add_field
    find_field first unit_rank field_names
sorted_keys = refl
