-- ===== src/Utils/Hash.antt =====
-- libs/common/src/utils/hash.util.ts: the hash for cache keys, `HashUtil.stableHash`. The text that
-- `JSON.stringify` writes of a value with no list of properties, the digest and the texts of array
-- positions are parameters.
use Prim.Native.Char.{Char, code}
use Prim.Native.Nat.{compare, Ordering}
use Prim.Native.String as Text
use nestjs_microservice_plat.Prelude.{
  ℕ, zero, suc, ◌+◌, ℤ, String, List, [], ◌∷◌, Bool, true, false, Option, none, some, ltb, ◌==◌,
  if◌then◌else◌,
}

-- A value that JSON keeps.
mutual
  pub data JsonValue : Type 0 where
    null : JsonValue
    bool : Bool → JsonValue
    num : ℤ → JsonValue
    str : String → JsonValue
    arr : JsonItems → JsonValue
    obj : JsonFields → JsonValue

  pub data JsonItems : Type 0 where
    nil : JsonItems
    cons : JsonValue → JsonItems → JsonItems

  pub data JsonFields : Type 0 where
    end : JsonFields
    field : String → JsonValue → JsonFields → JsonFields

-- The order of `sort`, by UTF-16 code units: the characters of two units come before those from
-- U+E000 on.
unfoldable pub unit_rank : Char → ℕ
unit_rank c =
    if ltb (code c) 57344 then code c else (if ltb (code c) 65536 then code c + 2000000 else code c)

unfoldable pub before : String → String → Bool
unfolding unit_rank
before Text.[] t = true
before (Text.◌∷◌ c s) Text.[] = false
before (Text.◌∷◌ c s) (Text.◌∷◌ d t) = elim (compare (unit_rank c) (unit_rank d)) [
  | Ordering.lt ↦ true
  | Ordering.eq ↦ before s t
  | Ordering.gt ↦ false
]

unfoldable pub insert_key : String → List String → List String
unfolding before
insert_key k [] = k ∷ []
insert_key k (x ∷ xs) = if before k x then k ∷ x ∷ xs else x ∷ insert_key k xs

unfoldable pub sort : List String → List String
unfolding insert_key
sort [] = []
sort (k ∷ ks) = insert_key k (sort ks)

-- `Object.keys`, which throws for `null`
unfoldable pub field_names : JsonFields → List String
field_names end = []
field_names (field k v fs) = k ∷ field_names fs

unfoldable pub positions : (ℕ → String) → ℕ → JsonItems → List String
positions digits n nil = []
positions digits n (cons x xs) = digits n ∷ positions digits (suc n) xs

unfoldable pub text_positions : (ℕ → String) → ℕ → String → List String
text_positions digits n Text.[] = []
text_positions digits n (Text.◌∷◌ c s) = digits n ∷ text_positions digits (suc n) s

unfoldable pub object_keys : (ℕ → String) → JsonValue → Option (List String)
unfolding field_names positions text_positions
object_keys digits null = none
object_keys digits (bool b) = some []
object_keys digits (num n) = some []
object_keys digits (str s) = some (text_positions digits 0 s)
object_keys digits (arr xs) = some (positions digits 0 xs)
object_keys digits (obj fs) = some (field_names fs)

-- With a list of properties `JSON.stringify` writes of every object, the inner ones too, the
-- properties of the list, in its order.
unfoldable pub add_field : String → Option JsonValue → JsonFields → JsonFields
add_field k none fs = fs
add_field k (some v) fs = field k v fs

unfoldable pub find_field : String → JsonFields → Option JsonValue
find_field k end = none
find_field k (field j v fs) = if k == j then some v else find_field k fs

unfoldable pub pick : List String → JsonFields → JsonFields
unfolding add_field find_field
pick [] fs = end
pick (k ∷ ks) fs = add_field k (find_field k fs) (pick ks fs)

unfoldable mutual
  unfolding pick

  pub restrict : List String → JsonValue → JsonValue
  restrict ks null = null
  restrict ks (bool b) = bool b
  restrict ks (num n) = num n
  restrict ks (str s) = str s
  restrict ks (arr xs) = arr (restrict_items ks xs)
  restrict ks (obj fs) = obj (pick ks (restrict_fields ks fs))

  pub restrict_items : List String → JsonItems → JsonItems
  restrict_items ks nil = nil
  restrict_items ks (cons x xs) = cons (restrict ks x) (restrict_items ks xs)

  pub restrict_fields : List String → JsonFields → JsonFields
  restrict_fields ks end = end
  restrict_fields ks (field k v fs) = field k (restrict ks v) (restrict_fields ks fs)

-- `slice(0, n)`
unfoldable pub first : ℕ → String → String
first zero s = ""
first (suc n) Text.[] = ""
first (suc n) (Text.◌∷◌ c s) = Text.◌∷◌ c (first n s)

module _ (digits : ℕ → String) (print : JsonValue → String) (sha256 : String → String) where
  -- `none` is the TypeError for `null`.
  unfoldable pub stable_hash : JsonValue → Option String
  unfolding object_keys sort restrict first
  stable_hash value = elim (object_keys digits value) [
    | none ↦ none
    | some keys ↦ some (first 16 (sha256 (print (restrict (sort keys) value))))
  ]
