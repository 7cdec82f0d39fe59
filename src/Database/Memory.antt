-- ===== src/Database/Memory.antt =====
-- A collection that holds one document at most, as a concrete model: it shows that the laws of
-- `ModelLaws` can hold, and the tests run on it.
use nestjs_microservice_plat.Prelude.{
  ◌≤◌, ◌≡◌, refl, sym, ap, ◌∙◌, ◌≢◌, inl, inr, String, List, [], ◌∷◌, Bool, true, false, ◌&&◌, ◌==◌,
  Option, none, some, arith, eq_iff, eq_refl, All, length, includes, if◌then◌else◌, Bool-cases,
}
use nestjs_microservice_plat.Js.{Value, null, bool, str, strs, Object, spread}
use nestjs_microservice_plat.Errors.{error}
use nestjs_microservice_plat.Action.{Result, ok, err}
use nestjs_microservice_plat.Database.{Filter, Update, Model, ModelLaws, Satisfies, by_id, assigned}

abbrev pub Store : Type 0
Store = Option Object

abbrev pub same_bool : Bool → Bool → Bool
same_bool true b = b
same_bool false true = false
same_bool false false = true

-- A field against the value of a condition; other values than these match nothing here.
abbrev pub field_meets : Option Value → Value → Bool
field_meets none null = true
field_meets (some null) null = true
field_meets (some (str t)) (str s) = t == s
field_meets (some (strs xs)) (str s) = includes xs s
field_meets (some (bool a)) (bool b) = same_bool a b
field_meets _ _ = false

-- An id is a text.
abbrev pub id_meets : Option Value → Value → Bool
id_meets (some (str t)) (str s) = t == s
id_meets _ _ = false

abbrev pub meets : Object → Filter → Bool
meets d [] = true
meets d ((k, v) ∷ f) = (if k == "_id" then id_meets (d k) v else field_meets (d k) v) && meets d f

abbrev pub found : Filter → Store → Option Object
found f none = none
found f (some d) = if meets d f then some d else none

abbrev pub to_list : Option Object → List Object
to_list none = []
to_list (some d) = d ∷ []

-- The update, which leaves the id alone.
abbrev pub updated : Update → Object → Object
updated u d k = if k == "_id" then d k else spread d (assigned u) k

abbrev pub replace : Option Object → Update → Store → Result (Option Object) × Store
replace none u w = (ok none, w)
replace (some d) u w = (ok (some (updated u d)), some (updated u d))

abbrev pub insert : Object → Store → Result Object × Store
insert d none = (ok d, some d)
insert d (some old) = (err (error "E11000 duplicate key error"), some old)

abbrev pub memory : Model Store
memory = record {
  create = insert;
  find_one = λ f w. ok (found f w);
  find_one_selecting = λ k f w. ok (found f w);
  find = λ f o w. ok (to_list (found f w));
  find_by_id = λ id w. ok (found (by_id id) w);
  find_one_and_update = λ f u o w. replace (found f w) u w;
  find_one_and_delete = λ f w. (ok (found f w), elim (found f w) [ none ↦ w | some d ↦ none ]);
  update_one = λ f u w. (ok tt, (replace (found f w) u w).1);
  count_documents = λ f w. ok (length (to_list (found f w)));
}

-- Every field but the id is stored as it is.
abbrev pub Storable : String → Value → Type 0
Storable k v = k ≢ "_id"

same_bool_eq : (a b : Bool) → same_bool a b ≡ true → a ≡ b
same_bool_eq true b h = sym h
same_bool_eq false true h = cc
same_bool_eq false false h = refl

id_meets_sound :
    (d : Object) (k : String) (o : Option Value) (v : Value)
    → d k ≡ o
    → id_meets o v ≡ true
    → Satisfies d (k, v)
id_meets_sound d k (some (str t)) (str s) e h = inl (ground (arith, eq_iff t s))
id_meets_sound d k o v e h = cc

field_meets_sound :
    (d : Object) (k : String) (o : Option Value) (v : Value)
    → d k ≡ o
    → field_meets o v ≡ true
    → Satisfies d (k, v)
field_meets_sound d k none null e h = inl e
field_meets_sound d k (some null) null e h = inr e
field_meets_sound d k (some (str t)) (str s) e h = inl (ground (arith, eq_iff t s))
field_meets_sound d k (some (strs xs)) (str s) e h = inr (xs, e, h)
field_meets_sound d k (some (bool a)) (bool b) e h = ground (arith, same_bool_eq a b h)
field_meets_sound d k o v e h = cc

meets_sound : (d : Object) (f : Filter) → meets d f ≡ true → All (Satisfies d) f
meets_sound d [] h = tt
meets_sound d ((k, v) ∷ f) h = elim (Bool-cases (k == "_id")) [
  | inl key ↦ (id_meets_sound d k (d k) v refl (ground arith), meets_sound d f (ground arith))
  | inr other ↦ (field_meets_sound d k (d k) v refl (ground arith), meets_sound d f (ground arith))
]

-- The stored document is the only one that is found.
found-some :
    (f : Filter) (w : Store) (d : Object) → found f w ≡ some d → (w ≡ some d) × (meets d f ≡ true)
found-some f none d e = cc
found-some f (some x) d e = ground arith

-- The update keeps the id, and so keeps what a search by id finds.
meets-updated :
    (d : Object) (u : Update) (id : String) → meets (updated u d) (by_id id) ≡ meets d (by_id id)
meets-updated d u id = refl

id_meets_one :
    (o : Option Value) (id other : String)
    → id ≢ other
    → id_meets o (str id) ≡ true
    → (id_meets o (str other) && true) ≡ false
id_meets_one (some (str t)) id other ne h = ground (arith, eq_iff t id, eq_iff t other)
id_meets_one o id other ne h = cc

meets_one_id :
    (d : Object) (id other : String)
    → id ≢ other
    → meets d (by_id id) ≡ true
    → meets d (by_id other) ≡ false
meets_one_id d id other ne h = id_meets_one (d "_id") id other ne (ground arith)

replace-ok :
    (o : Option Object) (u : Update) (w w' : Store) (d : Object)
    → replace o u w ≡ (ok (some d), w')
    → (x : Object) × (o ≡ some x) × (d ≡ updated u x) × (w' ≡ some d)
replace-ok none u w w' d e = cc
replace-ok (some x) u w w' d e = (x, refl, ground arith, ground arith)

memory-update_sets :
    (f : Filter) (u : Update) (w w' : Store) (d : Object) (k : String) (v : Value)
    → replace (found f w) u w ≡ (ok (some d), w')
    → assigned u k ≡ some v
    → k ≢ "_id"
    → d k ≡ some v
memory-update_sets f u w w' d k v e a h =
    let (x, _, new, _) = replace-ok (found f w) u w w' d e in
    rw new (ground (arith, eq_iff k "_id"))

memory-update_keeps :
    (f : Filter) (u : Update) (w w' : Store) (d old : Object) (k : String)
    → found f w ≡ some old
    → replace (found f w) u w ≡ (ok (some d), w')
    → assigned u k ≡ none
    → d k ≡ old k
memory-update_keeps f u w w' d old k s e a =
    let (x, is, new, _) = replace-ok (found f w) u w w' d e in
    let same : x ≡ old = cc in rw (new, same) (ground arith)

memory-update_stored :
    (id : String) (u : Update) (w w' : Store) (d : Object)
    → replace (found (by_id id) w) u w ≡ (ok (some d), w')
    → found (by_id id) w' ≡ some d
memory-update_stored id u w w' d e =
    let (x, is, new, stored) = replace-ok (found (by_id id) w) u w w' d e in
    let (_, hit) = found-some (by_id id) w x is in
    let again : meets d (by_id id) ≡ true = rw new (meets-updated x u id ∙ hit) in
    rw (stored, found) (rw again)

memory-update_others :
    (id other : String) (u : Update) (w w' : Store) (d : Option Object)
    → id ≢ other
    → replace (found (by_id id) w) u w ≡ (ok d, w')
    → found (by_id other) w' ≡ found (by_id other) w
memory-update_others id other u none w' d ne e = ground arith
memory-update_others id other u (some x) w' d ne e = elim (Bool-cases (meets x (by_id id))) [
  | inl hit ↦ ground (arith, meets_one_id x id other ne hit, meets-updated x u other)
  | inr miss ↦ ground arith
]

found-All :
    (P : Object → Type 0) (f : Filter) (w : Store)
    → ((d : Object) → w ≡ some d → meets d f ≡ true → P d)
    → All P (to_list (found f w))
found-All P f none holds = tt
found-All P f (some d) holds = elim (Bool-cases (meets d f)) [
  | inl hit ↦ rw hit (holds d refl hit, tt)
  | inr miss ↦ rw miss tt
]

memory-find_stored :
    (f : Filter) (w : Store) (id : String)
    → All
        (λ d. d "_id" ≡ some (str id) → ok (found (by_id id) w) ≡ ok (some d))
        (to_list (found f w))
memory-find_stored f w id =
    found-All (λ d. d "_id" ≡ some (str id) → ok (found (by_id id) w) ≡ ok (some d)) f w
      (λ d is hit key. rw is (rw (key, eq_refl id)))

length-to_list-le : (o : Option Object) → length (to_list o) ≤ 1
length-to_list-le none = omega arith
length-to_list-le (some d) = omega arith

ok-injective : {A : Type 0} {a b : A} → ok a ≡ ok b → a ≡ b
ok-injective e = cc

pub memory-laws : ModelLaws memory Storable
memory-laws = record {
  find_by_id_lem = λ id w. refl;
  update_missing = λ f u o w e. rw (ok-injective e);
  update_sets = λ f u o w w' d k v n e a h. memory-update_sets f u w w' d k v e a h;
  update_keeps = λ f u o w w' d old k n s e a h. memory-update_keeps f u w w' d old k (cc) e a;
  update_stored = λ id u o w w' d n e. ap ok (memory-update_stored id u w w' d e);
  update_others = λ id other u o w w' d h e. ap ok (memory-update_others id other u w w' d h e);
  find_sound = λ f o w ds e.
      rw (← ok-injective e)
        (found-All (λ d. All (Satisfies d) f) f w (λ d is hit. meets_sound d f hit));
  find_limit =
      λ f o w ds n e h. omega (arith, length-to_list-le (found f w), ap length (ok-injective e));
  find_stored = λ f o w ds id e. rw (← ok-injective e) (memory-find_stored f w id);
}
