-- ===== src/Database.antt =====
-- The mongoose model that the repositories are built on. It is not code of the repository: the
-- operations that the source calls are a record over a world, and what it relies on of mongoose and
-- MongoDB are the laws below. A document is the object that `toObject()` gives.
pub mod Repository
pub mod RepositoryLaws
pub mod Schema
pub mod UserSchemas
pub mod Memory
pub mod MemorySchema
use nestjs_microservice_plat.Prelude.{
  ℕ, suc, ℤ, pos, ◌≤◌, String, List, ◌∷◌, [], Bool, true, false, Option, none, some, ◌≡◌, ◌≢◌, ◌⊎◌,
  All, length, includes,
}
use nestjs_microservice_plat.Js.{Value, null, bool, num, str, date, strs, nested, Object}
use nestjs_microservice_plat.Action.{Result, ok, Action}

-- `FilterQuery`: equality conditions, all of which hold.
abbrev pub Filter : Type 0
Filter = List (String × Value)

pub data Direction : Type 0 where
  ascending descending : Direction

-- `QueryOptions`; `return_new` is the option `new`.
pub record QueryOptions : Type 0 where
  pub skip : Option ℤ
  pub limit : Option ℤ
  pub sort : List (String × Direction)
  pub return_new : Bool

abbrev pub no_options : QueryOptions
no_options = record { skip = none; limit = none; sort = []; return_new = false }

-- `UpdateQuery`: plain fields, which mongoose wraps into `$set`, or `$set` itself.
pub data Update : Type 0 where
  fields : Object → Update
  set : Object → Update

-- the fields that an update assigns
abbrev pub assigned : Update → Object
assigned (fields o) = o
assigned (set o) = o

pub record Model (W : Type 0) : Type 0 where
  pub create : Object → Action W Object
  pub find_one : Filter → W → Result (Option Object)
  pub find_one_selecting : String → Filter → W → Result (Option Object)
  pub find : Filter → QueryOptions → W → Result (List Object)
  pub find_by_id : String → W → Result (Option Object)
  pub find_one_and_update : Filter → Update → QueryOptions → Action W (Option Object)
  pub find_one_and_delete : Filter → Action W (Option Object)
  pub update_one : Filter → Update → Action W (Unit {0})
  pub count_documents : Filter → W → Result ℕ

-- When a document meets a condition: `null` also matches a missing field, and a text also an array
-- that holds it.
abbrev pub Satisfies : Object → String × Value → Type 0
Satisfies d (k, null) = (d k ≡ none) ⊎ (d k ≡ some null)
Satisfies d (k, str s) =
    (d k ≡ some (str s)) ⊎ ((xs : List String) × (d k ≡ some (strs xs)) × (includes xs s ≡ true))
Satisfies d (k, v) = d k ≡ some v

abbrev pub by_id : String → Filter
by_id id = ("_id", str id) ∷ []

-- What the code relies on. `Fits k v` says that the schema stores the value `v` at the path `k` as
-- it is, with no cast.
pub record ModelLaws {W : Type 0} (m : Model W) (Fits : String → Value → Type 0) : Type 0 where
  pub find_by_id_lem : (id : String) (w : W) → m.find_by_id id w ≡ m.find_one (by_id id) w
  pub update_missing :
      (f : Filter) (u : Update) (o : QueryOptions) (w : W)
      → m.find_one f w ≡ ok none
      → m.find_one_and_update f u o w ≡ (ok none, w)
  pub update_sets :
      (f : Filter) (u : Update) (o : QueryOptions) (w w' : W) (d : Object) (k : String) (v : Value)
      → o.return_new ≡ true
      → m.find_one_and_update f u o w ≡ (ok (some d), w')
      → assigned u k ≡ some v
      → Fits k v
      → d k ≡ some v
  pub update_keeps :
      (f : Filter) (u : Update) (o : QueryOptions) (w w' : W) (d old : Object) (k : String)
      → o.return_new ≡ true
      → m.find_one f w ≡ ok (some old)
      → m.find_one_and_update f u o w ≡ (ok (some d), w')
      → assigned u k ≡ none
      → k ≢ "updatedAt"
      → d k ≡ old k
  pub update_stored :
      (id : String) (u : Update) (o : QueryOptions) (w w' : W) (d : Object)
      → o.return_new ≡ true
      → m.find_one_and_update (by_id id) u o w ≡ (ok (some d), w')
      → m.find_one (by_id id) w' ≡ ok (some d)
  pub update_others :
      (id other : String) (u : Update) (o : QueryOptions) (w w' : W) (d : Option Object)
      → id ≢ other
      → m.find_one_and_update (by_id id) u o w ≡ (ok d, w')
      → m.find_one (by_id other) w' ≡ m.find_one (by_id other) w
  pub find_sound :
      (f : Filter) (o : QueryOptions) (w : W) (ds : List Object)
      → m.find f o w ≡ ok ds
      → All (λ d. All (Satisfies d) f) ds
  pub find_limit :
      (f : Filter) (o : QueryOptions) (w : W) (ds : List Object) (n : ℕ)
      → m.find f o w ≡ ok ds
      → o.limit ≡ some (pos (suc n))
      → length ds ≤ suc n
  pub find_stored :
      (f : Filter) (o : QueryOptions) (w : W) (ds : List Object) (id : String)
      → m.find f o w ≡ ok ds
      → All (λ d. d "_id" ≡ some (str id) → m.find_one (by_id id) w ≡ ok (some d)) ds
