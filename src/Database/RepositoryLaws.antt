-- ===== src/Database/RepositoryLaws.antt =====
-- What the base repository adds to the model.
use nestjs_microservice_plat.Prelude.{
  ℕ, ◌≡◌, refl, sym, subst, ◌∙◌, ◌≢◌, String, List, true, some, arith, inl, inr, All, All-zip,
  All-map, length, suc, pos, ◌≤◌,
}
use nestjs_microservice_plat.Js.{Value, null, date, str, Object, empty, put}
use nestjs_microservice_plat.Action.{ok}
use nestjs_microservice_plat.Database.{
  Filter, QueryOptions, no_options, Update, fields, Model, ModelLaws, by_id, assigned, Satisfies,
}
use nestjs_microservice_plat.Database.Repository.{
  Page, find_by_id, find_one_and_update, soft_delete, find_and_count,
}

pub some-ok-injective : {d x : Object} → ok (some d) ≡ ok (some x) → d ≡ x
some-ok-injective e = cc

-- A condition on a live document fails for a deleted one.
not_live : (x : Object) (n : ℕ) → Satisfies x ("deletedAt", null) → x "deletedAt" ≢ some (date n)
not_live x n (inl a) q = cc
not_live x n (inr a) q = cc

module _ {W : Type 0} (model : Model W) where
  -- A successful update comes from a document that the model found and updated, with `new: true`.
  pub find_one_and_update-ok :
      (f : Filter) (u : Update) (o : QueryOptions) (w w' : W) (d : Object)
      → find_one_and_update model f u o w ≡ (ok d, w')
      → model.find_one_and_update f u (record o { return_new = true }) w ≡ (ok (some d), w')
  unfolding find_one_and_update
  find_one_and_update-ok f u o w w' d e = ground arith

  pub find_by_id-ok :
      (id : String) (w w' : W) (d : Object)
      → find_by_id model id w ≡ (ok d, w')
      → (model.find_by_id id w ≡ ok (some d)) × (w' ≡ w)
  unfolding find_by_id
  find_by_id-ok id w w' d e = ground arith

  pub find_and_count-ok :
      (f : Filter) (o : QueryOptions) (w w' : W) (p : Page)
      → find_and_count model f o w ≡ (ok p, w')
      → (model.find f o w ≡ ok p.items) × (model.count_documents f w ≡ ok p.total) × (w' ≡ w)
  unfolding find_and_count
  find_and_count-ok f o w w' p e = ground arith

module _ {W : Type 0} (model : Model W) {Fits : String → Value → Type 0}
    (laws : ModelLaws model Fits) where
  -- What a successful update by id leaves: the assigned field, in the answer and in the store.
  pub update_by_id-ok :
      (id : String) (u : Update) (o : QueryOptions) (w w' : W) (d : Object) (k : String) (v : Value)
      → find_one_and_update model (by_id id) u o w ≡ (ok d, w')
      → assigned u k ≡ some v
      → Fits k v
      → (d k ≡ some v) × (model.find_one (by_id id) w' ≡ ok (some d))
  update_by_id-ok id u o w w' d k v e a h =
      let e' = find_one_and_update-ok model (by_id id) u o w w' d e in
      (
        laws.update_sets (by_id id) u (record o { return_new = true }) w w' d k v refl e' a h,
        laws.update_stored id u (record o { return_new = true }) w w' d refl e',
      )

  pub soft_delete-ok :
      (now : ℕ) (id : String) (w w' : W) (d : Object)
      → soft_delete model now (by_id id) w ≡ (ok d, w')
      → Fits "deletedAt" (date now)
      → (d "deletedAt" ≡ some (date now)) × (model.find_one (by_id id) w' ≡ ok (some d))
  unfolding soft_delete
  soft_delete-ok now id w w' d e h =
      update_by_id-ok id (fields (put "deletedAt" (date now) empty)) no_options w w' d "deletedAt"
        (date now) e refl h

  -- The document that was deleted softly is still found by its id.
  pub find_by_id-soft_delete :
      (now : ℕ) (id : String) (w w' : W) (d : Object)
      → soft_delete model now (by_id id) w ≡ (ok d, w')
      → Fits "deletedAt" (date now)
      → find_by_id model id w' ≡ (ok d, w')
  unfolding find_by_id
  find_by_id-soft_delete now id w w' d e h =
      let stored = (soft_delete-ok now id w w' d e h).1 in rw (laws.find_by_id_lem id w', stored)

  -- A listing leaves out a stored document of which its filter says something false.
  pub find-excludes :
      (P : Object → Type 0) (f : Filter) (o : QueryOptions) (w : W) (ds : List Object) (id : String)
      (d : Object)
      → ((x : Object) → All (Satisfies x) f → P x)
      → model.find f o w ≡ ok ds
      → model.find_one (by_id id) w ≡ ok (some d)
      → ¬ P d
      → All (λ x. x "_id" ≢ some (str id)) ds
  find-excludes P f o w ds id d holds e stored fails =
      All-zip (λ x. All (Satisfies x) f)
        (λ x. x "_id" ≡ some (str id) → model.find_one (by_id id) w ≡ ok (some x))
        (λ x. x "_id" ≢ some (str id))
        (λ x s found i.
          fails (subst P (sym (some-ok-injective (sym stored ∙ found i))) (holds x s)))
        ds (laws.find_sound f o w ds e) (laws.find_stored f o w ds id e)

  -- A page of a listing: what its filter says of a document holds of every item, the limit is kept
  -- and nothing is written.
  pub find_and_count-page :
      (P : Object → Type 0) (f : Filter) (o : QueryOptions) (w w' : W) (p : Page) (n : ℕ)
      → ((x : Object) → All (Satisfies x) f → P x)
      → find_and_count model f o w ≡ (ok p, w')
      → o.limit ≡ some (pos (suc n))
      → All P p.items × (length p.items ≤ suc n) × (w' ≡ w)
  find_and_count-page P f o w w' p n holds e h =
      let (found, _, same) = find_and_count-ok model f o w w' p e in
      (
        All-map (λ x. All (Satisfies x) f) P holds p.items (laws.find_sound f o w p.items found),
        laws.find_limit f o w p.items n found h,
        same,
      )

  -- After a soft delete no listing of live documents has the deleted one.
  pub find_and_count-hidden :
      (f : Filter) (o : QueryOptions) (now : ℕ) (id : String) (w w1 w2 : W) (d : Object) (p : Page)
      → ((x : Object) → All (Satisfies x) f → Satisfies x ("deletedAt", null))
      → soft_delete model now (by_id id) w ≡ (ok d, w1)
      → Fits "deletedAt" (date now)
      → find_and_count model f o w1 ≡ (ok p, w2)
      → All (λ x. x "_id" ≢ some (str id)) p.items
  find_and_count-hidden f o now id w w1 w2 d p live deleted h e =
      let (at, stored) = soft_delete-ok now id w w1 d deleted h in
      let (found, _, _) = find_and_count-ok model f o w1 w2 p e in
      find-excludes (λ x. Satisfies x ("deletedAt", null)) f o w1 p.items id d live found stored
        (λ s. not_live d now s at)

  -- A stored document is what `findById` answers with.
  pub find_by_id-of_stored :
      (id : String) (w : W) (d : Object)
      → model.find_one (by_id id) w ≡ ok (some d)
      → find_by_id model id w ≡ (ok d, w)
  unfolding find_by_id
  find_by_id-of_stored id w d stored = rw (laws.find_by_id_lem id w, stored)
