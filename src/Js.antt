-- ===== src/Js.antt =====
-- What the services use of JavaScript values: plain objects with the spread, the `||` and `??`
-- defaults, and the exceptions and asynchronous actions that they throw and await.
use nestjs_microservice_plat.Prelude.{
  ℕ, ℤ, pos, String, List, Bool, false, Option, none, some, ◌==◌, nat_eq, if◌then◌else◌,
}

-- The values of a field. `date` is a time in milliseconds; `nested` stands for an object that the
-- code passes on and never looks into, `nan` for the number that is none.
pub data Value : Type 0 where
  null : Value
  bool : Bool → Value
  num : ℤ → Value
  str : String → Value
  date : ℕ → Value
  strs : List String → Value
  nested : ℕ → Value
  nan : Value

-- A plain object: `none` is a field that is missing or `undefined`.
abbrev pub Object : Type 0
Object = String → Option Value

abbrev pub empty : Object
empty k = none

-- `{ ...o, [k]: v }`
abbrev pub put : String → Value → Object → Object
put k v o j = if k == j then some v else o j

-- `{ [k]: v }`, where `v` may be `undefined`
abbrev pub field : String → Option Value → Object
field k v j = if k == j then v else none

-- `delete o[k]`
abbrev pub remove : String → Object → Object
remove k o j = if k == j then none else o j

-- `{ ...a, ...b }`
abbrev pub spread : Object → Object → Object
spread a b k = elim (b k) [ none ↦ a k | some v ↦ some v ]

-- `s || d`
abbrev pub or_text : Option String → String → String
or_text none d = d
or_text (some s) d = if s == "" then d else s

-- `n || d`
abbrev pub or_num : Option ℤ → ℤ → ℤ
or_num none d = d
or_num (some (pos n)) d = if nat_eq n 0 then d else pos n
or_num (some n) d = n

-- `n ?? d`, and a parameter's default value
abbrev pub default {ℓ} : {A : Type ℓ} → Option A → A → A
default none d = d
default (some a) d = a

-- a value where a text is expected
abbrev pub as_text : Option Value → Option String
as_text (some (str s)) = some s
as_text _ = none

-- a value where a number is expected
abbrev pub as_whole : Option Value → Option ℤ
as_whole (some (num z)) = some z
as_whole v = none

-- `v === s`
abbrev pub is_text : Option Value → String → Bool
is_text (some (str t)) s = t == s
is_text _ s = false
