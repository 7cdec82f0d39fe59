-- ===== src/Wiring/Laws.antt =====
-- Whether Nest can construct what the applications are made of.
use nestjs_microservice_plat.Prelude.{
  ◌≡◌, refl, String, List, [], ◌∷◌, Bool, true, ◌||◌, all, arith,
}
use nestjs_microservice_plat.Wiring.{
  Class, Package, Import, Module, module_of, Modules, no_modules, with_module, Offer, offered,
  passed_on, global_imports, provides, exported, exported_by, globals, globals_of, all_needs, wired,
  wired_all, core_import, is_wired, documented,
}
use nestjs_microservice_plat.Wiring.Libraries.{
  database_module, redis_module, rabbitmq_module, auth_lib_module,
}
use nestjs_microservice_plat.Wiring.Applications.{
  todos_service_module, books_service_module, users_service_module, older_users_module,
  auth_service_module, notification_module, email_module, posts_module, posts_app_module,
  gateway_auth_module, gateway_users_module, gateway_todos_module, gateway_books_module,
  gateway_module, modules_auth_module, modules_user_module,
}

-- Whatever is offered or visible on one side is on the other.
abbrev IsWithin : (String → Bool) → (String → Bool) → Type 0
IsWithin p q = (t : String) → p t ≡ true → q t ≡ true

abbrev Offers : Offer → Offer → Type 0
Offers less more = (i : Import) → IsWithin (less i) (more i)

module _ (less more : Offer) (h : Offers less more) where
  offered_more : (is : List Import) → IsWithin (offered less is) (offered more is)
  offered_more [] t e = e
  offered_more (i ∷ is) t e = ground (arith, h i t, offered_more is t)

  passed_on_more :
      (ps : List Package) (is : List Import)
      → IsWithin (passed_on less ps is) (passed_on more ps is)
  passed_on_more ps [] t e = e
  passed_on_more ps (i ∷ is) t e = ground (arith, h i t, passed_on_more ps is t)

  global_imports_more :
      (is : List Import) → IsWithin (global_imports less is) (global_imports more is)
  global_imports_more [] t e = e
  global_imports_more (i ∷ is) t e = ground (arith, h i t, global_imports_more is t)

  exported_more : (m : Module) → IsWithin (exported less m) (exported more m)
  exported_more (module_of g is ms cs ps ts qs) t e = ground (arith, passed_on_more qs is t)

  exported_by_more : (ms : Modules) → IsWithin (exported_by less ms) (exported_by more ms)
  exported_by_more no_modules t e = e
  exported_by_more (with_module m ms) t e = ground (arith, exported_more m t, exported_by_more ms t)

  mutual
    unfolding globals globals_of

    globals_more : (m : Module) → IsWithin (globals less m) (globals more m)
    globals_more (module_of g is ms cs ps ts qs) t e =
        ground (arith, passed_on_more qs is t, global_imports_more is t, globals_of_more ms t)

    globals_of_more : (ms : Modules) → IsWithin (globals_of less ms) (globals_of more ms)
    globals_of_more no_modules t e = e
    globals_of_more (with_module m ms) t e = ground (arith, globals_more m t, globals_of_more ms t)

all_more :
    (p q : String → Bool) (ts : List String) → IsWithin p q → all p ts ≡ true → all q ts ≡ true
all_more p q [] w e = e
all_more p q (t ∷ ts) w e = ground (arith, w t, all_more p q ts w)

all_needs_more :
    (p q : String → Bool) (cs : List Class)
    → IsWithin p q
    → all_needs p cs ≡ true
    → all_needs q cs ≡ true
all_needs_more p q [] w e = e
all_needs_more p q (c ∷ cs) w e = ground (arith, all_more p q c.needs w, all_needs_more p q cs w)

module _ (less more : Offer) (h : Offers less more) where
  mutual
    unfolding wired wired_all

    wired_more :
        (p q : String → Bool) (m : Module)
        → IsWithin p q
        → wired less p m ≡ true
        → wired more q m ≡ true
    wired_more p q (module_of g is ms cs ps ts qs) w e =
        let wider : IsWithin
            (λ t. provides ps t || offered less is t || exported_by less ms t || p t)
            (λ t. provides ps t || offered more is t || exported_by more ms t || q t) =
          λ t v.
            ground (arith, offered_more less more h is t, exported_by_more less more h ms t, w t) in
        ground
          (arith, all_needs_more _ _ cs wider, all_needs_more _ _ ps wider, wired_all_more p q ms w)

    wired_all_more :
        (p q : String → Bool) (ms : Modules)
        → IsWithin p q
        → wired_all less p ms ≡ true
        → wired_all more q ms ≡ true
    wired_all_more p q no_modules w e = e
    wired_all_more p q (with_module m ms) w e =
        ground (arith, wired_more p q m w, wired_all_more p q ms w)

  -- A module that is wired with what the packages promise is wired with more.
  is_wired_more : (m : Module) → is_wired less m ≡ true → is_wired more m ≡ true
  unfolding is_wired
  is_wired_more m e =
      wired_more _ _ m (λ t v. ground (arith, globals_more less more h m t, h core_import t)) e

pub data Application : Type 0 where
  gateway auth_service todos_service books_service users_service posts_service notification_worker
        email_worker older_users modules_auth modules_user :
      Application

abbrev pub module_for : Application → Module
module_for gateway = gateway_module
module_for auth_service = auth_service_module
module_for todos_service = todos_service_module
module_for books_service = books_service_module
module_for users_service = users_service_module
module_for posts_service = posts_app_module
module_for notification_worker = notification_module
module_for email_worker = email_module
module_for older_users = older_users_module
module_for modules_auth = modules_auth_module
module_for modules_user = modules_user_module

documented_wired : (a : Application) → is_wired documented (module_for a) ≡ true
unfolding is_wired wired wired_all globals globals_of database_module redis_module rabbitmq_module
    auth_lib_module todos_service_module books_service_module users_service_module
    older_users_module auth_service_module notification_module email_module posts_module
    posts_app_module gateway_auth_module gateway_users_module gateway_todos_module
    gateway_books_module gateway_module modules_auth_module modules_user_module
documented_wired gateway = refl
documented_wired auth_service = refl
documented_wired todos_service = refl
documented_wired books_service = refl
documented_wired users_service = refl
documented_wired posts_service = refl
documented_wired notification_worker = refl
documented_wired email_worker = refl
documented_wired older_users = refl
documented_wired modules_auth = refl
documented_wired modules_user = refl

-- With packages of Nest that offer at least the tokens that their documentation names, those of
-- the ThrottlerGuard included: every class of every application and of each module that it
-- imports, the guards of the application included, finds every token of its constructor.
pub applications_wired :
    (offer : Offer)
    → ((i : Import) (t : String) → documented i t ≡ true → offer i t ≡ true)
    → (a : Application) → is_wired offer (module_for a) ≡ true
applications_wired offer h a = is_wired_more documented offer h (module_for a) (documented_wired a)
