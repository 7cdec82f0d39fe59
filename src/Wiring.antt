-- ===== src/Wiring.antt =====
-- The modules of Nest: what a class is constructed from, and from where Nest takes it.
pub mod Libraries
pub mod Applications
pub mod Laws
pub mod Tests
use Prim.Native.String as Text
use nestjs_microservice_plat.Prelude.{
  String, List, [], ◌∷◌, Bool, true, false, ◌&&◌, ◌||◌, ◌==◌, all, includes,
}

-- A provider or a controller, by its token, with the tokens of its constructor or of `inject`.
pub record Class : Type 0 where
  pub token : String
  pub needs : List String

-- The packages of Nest whose modules the code imports, and Nest itself.
pub data Package : Type 0 where
  core config jwt passport throttler clients mongoose pino : Package

abbrev pub same_package : Package → Package → Bool
same_package core core = true
same_package config config = true
same_package jwt jwt = true
same_package passport passport = true
same_package throttler throttler = true
same_package clients clients = true
same_package mongoose mongoose = true
same_package pino pino = true
same_package p q = false

-- An import of a module of a package: whether it is global, and the tokens that it is registered
-- with, which are the names of `ClientsModule` and the models of `MongooseModule.forFeature`.
pub record Import : Type 0 where
  pub origin : Package
  pub is_global : Bool
  pub names : List String

-- A module of the repository: the packages and the modules that it imports, its controllers, its
-- providers, and what it exports, which are tokens and whole packages.
mutual
  pub data Module : Type 0 where
    module_of :
        Bool → List Import → Modules → List Class → List Class → List String → List Package → Module

  pub data Modules : Type 0 where
    no_modules : Modules
    with_module : Module → Modules → Modules

-- Which tokens an import makes available.
abbrev pub Offer : Type 0
Offer = Import → String → Bool

abbrev pub offered : Offer → List Import → String → Bool
offered offer [] t = false
offered offer (i ∷ is) t = offer i t || offered offer is t

abbrev pub in_packages : List Package → Package → Bool
in_packages [] p = false
in_packages (q ∷ qs) p = same_package q p || in_packages qs p

-- the tokens of the imports whose packages are passed on
abbrev pub passed_on : Offer → List Package → List Import → String → Bool
passed_on offer packages [] t = false
passed_on offer packages (i ∷ is) t =
    in_packages packages i.origin && offer i t || passed_on offer packages is t

abbrev pub global_imports : Offer → List Import → String → Bool
global_imports offer [] t = false
global_imports offer (i ∷ is) t = i.is_global && offer i t || global_imports offer is t

abbrev pub provides : List Class → String → Bool
provides [] t = false
provides (c ∷ cs) t = c.token == t || provides cs t

-- What a module exports.
abbrev pub exported : Offer → Module → String → Bool
exported offer (module_of is_global imports children controllers providers tokens packages) t =
    includes tokens t || passed_on offer packages imports t

abbrev pub exported_by : Offer → Modules → String → Bool
exported_by offer no_modules t = false
exported_by offer (with_module m ms) t = exported offer m t || exported_by offer ms t

-- What is global in an application: the exports of its global modules.
unfoldable mutual
  pub globals : Offer → Module → String → Bool
  globals offer (module_of is_global imports children controllers providers tokens packages) t =
      is_global && (includes tokens t || passed_on offer packages imports t)
      || global_imports offer imports t
      || globals_of offer children t

  pub globals_of : Offer → Modules → String → Bool
  globals_of offer no_modules t = false
  globals_of offer (with_module m ms) t = globals offer m t || globals_of offer ms t

abbrev pub all_needs : (String → Bool) → List Class → Bool
all_needs visible [] = true
all_needs visible (c ∷ cs) = all visible c.needs && all_needs visible cs

-- Every class of the module and of the modules that it imports finds what it needs: among the
-- providers of its module, the imports, the exports of imported modules, and what is global.
unfoldable mutual
  pub wired : Offer → (String → Bool) → Module → Bool
  wired offer anywhere
        (module_of is_global imports children controllers providers tokens packages) =
      all_needs
        (λ t.
          provides providers t
          || offered offer imports t
          || exported_by offer children t
          || anywhere t)
        controllers
      && all_needs
          (λ t.
            provides providers t
            || offered offer imports t
            || exported_by offer children t
            || anywhere t)
          providers
      && wired_all offer anywhere children

  pub wired_all : Offer → (String → Bool) → Modules → Bool
  wired_all offer anywhere no_modules = true
  wired_all offer anywhere (with_module m ms) =
      wired offer anywhere m && wired_all offer anywhere ms

abbrev pub core_import : Import
core_import = record { origin = core; is_global = true; names = [] }

-- Nest can construct every class of an application.
unfoldable pub is_wired : Offer → Module → Bool
unfolding wired globals
is_wired offer root = wired offer (λ t. globals offer root t || offer core_import t) root

-- What the documentation of a package says that its module offers.
abbrev pub documented : Import → String → Bool
documented i t = elim i.origin [
  | core ↦ t == "Reflector"
  | config ↦ t == "ConfigService"
  | jwt ↦ t == "JwtService"
  | pino ↦ t == "PinoLogger"
  | clients ↦ includes i.names t
  | mongoose ↦ includes i.names t
  | passport ↦ false
  | throttler ↦ includes ("THROTTLER:MODULE_OPTIONS" ∷ "ThrottlerStorage" ∷ []) t
]
