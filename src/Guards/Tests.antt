-- ===== src/Guards/Tests.antt =====
-- Requests at the guards.
use nestjs_microservice_plat.Prelude.{
  ◌≡◌, refl, ◌⊎◌, String, List, [], ◌∷◌, true, none, some, includes,
}
use nestjs_microservice_plat.Constants.{JwtPayload}
use nestjs_microservice_plat.Guards.{Metadata, Verdict, admit}
use nestjs_microservice_plat.Guards.Laws.{admit_sound}

abbrev root : JwtPayload
root = record { sub = "u1"; email = "root@x.org"; role = "admin" }

abbrev admins_only : Metadata
admins_only = record { is_public = none; roles = some ("admin" ∷ []) }

abbrev admin_roles : List String
admin_roles = "admin" ∷ []

abbrev nothing_said : Metadata
nothing_said = record { is_public = none; roles = none }

abbrev verdict : Verdict
verdict = record { error = none; user = some root }

admit_sound_example :
    (u : JwtPayload) × (some root ≡ some u)
    × (some root ≡ some u)
    × (verdict.error ≡ none)
    × ((admin_roles ≡ []) ⊎ (includes admin_roles u.role ≡ true))
unfolding admit
admit_sound_example = admit_sound admins_only nothing_said verdict (some root) refl refl
