-- ===== src/Wiring/Tests.antt =====
-- The packages as documented, and a module that forgets an import.
use nestjs_microservice_plat.Prelude.{◌≡◌, refl, [], ◌∷◌, true, false}
use nestjs_microservice_plat.Wiring.{
  Module, module_of, no_modules, config, globals, globals_of, wired, wired_all, is_wired,
  documented,
}
use nestjs_microservice_plat.Wiring.Libraries.{global_import}
use nestjs_microservice_plat.Wiring.Applications.{class_of}
use nestjs_microservice_plat.Wiring.Laws.{gateway, module_for, applications_wired}

applications_wired_example : is_wired documented (module_for gateway) ≡ true
applications_wired_example = applications_wired documented (λ i t e. e) gateway

-- A repository whose module imports no models
abbrev forgetful : Module
forgetful =
    module_of false (global_import config ∷ []) no_modules []
      (class_of "TodosRepository" ("TodoModel" ∷ []) ∷ []) [] []

forgetful_unwired : is_wired documented forgetful ≡ false
unfolding is_wired wired wired_all globals globals_of
forgetful_unwired = refl
