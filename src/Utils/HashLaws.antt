-- ===== src/Utils/HashLaws.antt =====
-- The hash for cache keys does not depend on the order of fields, and forgets inner fields.
use nestjs_microservice_plat.Prelude.{
  ℕ, suc, ◌≡◌, subst, refl, sym, ap, ◌∙◌, String, List, [], ◌∷◌, true, false, none, ◌==◌, arith,
  inl, inr, Bool-cases, eq_iff, eq_refl, includes,
}
use nestjs_microservice_plat.Utils.Hash.{
  JsonValue, obj, arr, JsonItems, nil, cons, JsonFields, end, field, insert_key, sort, field_names,
  positions, object_keys, find_field, add_field, pick, restrict, restrict_items, restrict_fields,
  stable_hash,
}
use nestjs_microservice_plat.Utils.KeySorting.{insert_key-insert_key}

-- Values that differ in the order of the fields of their objects at most.
mutual
  pub data Alike : JsonValue → JsonValue → Type 0 where
    same : (v : JsonValue) → Alike v v
    objects : (fs gs : JsonFields) → AlikeFields fs gs → Alike (obj fs) (obj gs)
    arrays : (xs ys : JsonItems) → AlikeItems xs ys → Alike (arr xs) (arr ys)

  pub data AlikeItems : JsonItems → JsonItems → Type 0 where
    both_nil : AlikeItems nil nil
    both_cons :
        (v w : JsonValue) (xs ys : JsonItems)
        → Alike v w
        → AlikeItems xs ys
        → AlikeItems (cons v xs) (cons w ys)

  pub data AlikeFields : JsonFields → JsonFields → Type 0 where
    both_end : AlikeFields end end
    keep :
        (k : String) (v w : JsonValue) (fs gs : JsonFields)
        → Alike v w
        → AlikeFields fs gs
        → AlikeFields (field k v fs) (field k w gs)
    swap :
        (a b : String) (v w : JsonValue) (fs : JsonFields)
        → (a == b) ≡ false
        → AlikeFields (field a v (field b w fs)) (field b w (field a v fs))
    chain : (fs gs hs : JsonFields) → AlikeFields fs gs → AlikeFields gs hs → AlikeFields fs hs

find_field-swap :
    (k a b : String) (u v : JsonValue) (fs : JsonFields)
    → (a == b) ≡ false
    → find_field k (field a u (field b v fs)) ≡ find_field k (field b v (field a u fs))
unfolding find_field
find_field-swap k a b u v fs apart = elim (Bool-cases (k == a)) [
  | inl is_a ↦
      let not_b : (k == b) ≡ false =
        subst (λ x. (x == b) ≡ false) (sym ((eq_iff k a).0 is_a)) apart in
      rw (is_a, not_b) refl
  | inr not_a ↦ rw not_a refl
]

find_field-cong :
    (k j : String) (v w : JsonValue) (fs gs : JsonFields)
    → v ≡ w
    → find_field k fs ≡ find_field k gs
    → find_field k (field j v fs) ≡ find_field k (field j w gs)
unfolding find_field
find_field-cong k j v w fs gs e found = rw (e, found) refl

pick-cong :
    (ks : List String) (fs gs : JsonFields)
    → ((k : String) → find_field k fs ≡ find_field k gs)
    → pick ks fs ≡ pick ks gs
unfolding pick
pick-cong [] fs gs found = refl
pick-cong (k ∷ ks) fs gs found = rw (found k, pick-cong ks fs gs found) refl

mutual
  unfolding restrict restrict_items restrict_fields

  restrict-Alike : (ks : List String) (v w : JsonValue) → Alike v w → restrict ks v ≡ restrict ks w
  restrict-Alike ks v w (same u) = refl
  restrict-Alike ks v w (objects fs gs h) = ap obj (
      pick-cong ks (restrict_fields ks fs) (restrict_fields ks gs)
        (λ k. find_field-Alike ks k fs gs h))
  restrict-Alike ks v w (arrays xs ys h) = ap arr (restrict_items-Alike ks xs ys h)

  restrict_items-Alike :
      (ks : List String) (xs ys : JsonItems)
      → AlikeItems xs ys
      → restrict_items ks xs ≡ restrict_items ks ys
  restrict_items-Alike ks xs ys both_nil = refl
  restrict_items-Alike ks xs ys (both_cons v w xs1 ys1 h t) =
      rw (restrict-Alike ks v w h, restrict_items-Alike ks xs1 ys1 t) refl

  find_field-Alike :
      (ks : List String) (k : String) (fs gs : JsonFields)
      → AlikeFields fs gs
      → find_field k (restrict_fields ks fs) ≡ find_field k (restrict_fields ks gs)
  find_field-Alike ks k fs gs both_end = refl
  find_field-Alike ks k fs gs (keep j v w fs1 gs1 h t) =
      find_field-cong k j (restrict ks v) (restrict ks w) (restrict_fields ks fs1)
        (restrict_fields ks gs1) (restrict-Alike ks v w h) (find_field-Alike ks k fs1 gs1 t)
  find_field-Alike ks k fs gs (swap a b v w fs1 apart) =
      find_field-swap k a b (restrict ks v) (restrict ks w) (restrict_fields ks fs1) apart
  find_field-Alike ks k fs gs (chain _ hs _ h t) =
      find_field-Alike ks k fs hs h ∙ find_field-Alike ks k hs gs t

sort-AlikeFields :
    (fs gs : JsonFields) → AlikeFields fs gs → sort (field_names fs) ≡ sort (field_names gs)
unfolding sort field_names
sort-AlikeFields fs gs both_end = refl
sort-AlikeFields fs gs (keep j v w fs1 gs1 h t) = ap (insert_key j) (sort-AlikeFields fs1 gs1 t)
sort-AlikeFields fs gs (swap a b v w fs1 apart) = insert_key-insert_key a b (sort (field_names fs1))
sort-AlikeFields fs gs (chain _ hs _ h t) = sort-AlikeFields fs hs h ∙ sort-AlikeFields hs gs t

positions-AlikeItems :
    (digits : ℕ → String) (n : ℕ) (xs ys : JsonItems)
    → AlikeItems xs ys
    → positions digits n xs ≡ positions digits n ys
unfolding positions
positions-AlikeItems digits n xs ys both_nil = refl
positions-AlikeItems digits n xs ys (both_cons v w xs1 ys1 h t) =
    ap (λ ks. digits n ∷ ks) (positions-AlikeItems digits (suc n) xs1 ys1 t)

pick-none :
    (ks : List String) (fs : JsonFields)
    → ((j : String) → includes ks j ≡ true → find_field j fs ≡ none)
    → pick ks fs ≡ end
unfolding pick add_field
pick-none [] fs none_found = refl
pick-none (k ∷ ks) fs none_found =
    let here : find_field k fs ≡ none = none_found k (rw (eq_refl k) refl) in
    let later : pick ks fs ≡ end = pick-none ks fs (λ j h. none_found j (ground arith)) in
    rw (here, later) refl

find_field-restrict :
    (ks : List String) (k : String) (fs : JsonFields)
    → find_field k fs ≡ none
    → find_field k (restrict_fields ks fs) ≡ none
unfolding find_field restrict_fields
find_field-restrict ks k end h = refl
find_field-restrict ks k (field j v fs) h = ground (arith, find_field-restrict ks k fs)

includes-insert_key :
    (k j : String) (ks : List String) → includes (insert_key k ks) j ≡ includes (k ∷ ks) j
unfolding insert_key
includes-insert_key k j [] = refl
includes-insert_key k j (x ∷ xs) = ground (arith, includes-insert_key k j xs)

includes-sort : (ks : List String) (j : String) → includes (sort ks) j ≡ includes ks j
unfolding sort
includes-sort [] j = refl
includes-sort (k ∷ ks) j = rw (includes-insert_key k j (sort ks), includes-sort ks j) refl

restrict-forgets :
    (ks : List String) (fs : JsonFields)
    → ((j : String) → includes ks j ≡ true → find_field j fs ≡ none)
    → restrict (sort ks) (obj fs) ≡ obj end
unfolding restrict
restrict-forgets ks fs none_found = ap obj (
    pick-none (sort ks) (restrict_fields (sort ks) fs)
      (λ j h. find_field-restrict (sort ks) j fs (none_found j (sym (includes-sort ks j) ∙ h))))

module _ (digits : ℕ → String) (print : JsonValue → String) (sha256 : String → String) where
  -- Values that differ in the order of the fields of their objects at most, at any depth, have the
  -- same hash.
  pub stable_hash-Alike :
      (v w : JsonValue)
      → Alike v w
      → stable_hash digits print sha256 v ≡ stable_hash digits print sha256 w
  unfolding stable_hash object_keys
  stable_hash-Alike v w (same u) = refl
  stable_hash-Alike v w (objects fs gs h) =
      rw
        (
          sort-AlikeFields fs gs h,
          restrict-Alike (sort (field_names gs)) (obj fs) (obj gs) (objects fs gs h),
        )
        refl
  stable_hash-Alike v w (arrays xs ys h) =
      rw
        (
          positions-AlikeItems digits 0 xs ys h,
          restrict-Alike (sort (positions digits 0 ys)) (arr xs) (arr ys) (arrays xs ys h),
        )
        refl

  -- Where no key of an object is a key of two inner objects, the hash is the same whichever of the
  -- two is the value of the first field.
  pub stable_hash-forgets :
      (k : String) (a b rest : JsonFields)
      → ((j : String)
          → includes (k ∷ field_names rest) j ≡ true
          → (find_field j a ≡ none) × (find_field j b ≡ none))
      → stable_hash digits print sha256 (obj (field k (obj a) rest))
        ≡ stable_hash digits print sha256 (obj (field k (obj b) rest))
  unfolding stable_hash object_keys field_names restrict restrict_fields
  stable_hash-forgets k a b rest apart =
      let ks = k ∷ field_names rest in
      rw
        (restrict-forgets ks a (λ j h. (apart j h).0), restrict-forgets ks b (λ j h. (apart j h).1))
        refl
