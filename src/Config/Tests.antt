-- ===== src/Config/Tests.antt =====
-- The configuration of small environments.
use nestjs_microservice_plat.Prelude.{◌≡◌, refl, negsuc, String, ◌==◌, none, some, if◌then◌else◌}
use nestjs_microservice_plat.Config.{Env}
use nestjs_microservice_plat.Config.Numbers.{parse_int, digit_of}
use nestjs_microservice_plat.Config.Configuration.{configuration_factory}
use nestjs_microservice_plat.Config.Validation.{with_defaults}
use nestjs_microservice_plat.Config.Laws.{configuration-with_defaults}

-- One variable is set.
abbrev only : String → String → Env
only key s name = if key == name then some s else none

parse_int-blank : parse_int "  -12px" ≡ some (negsuc 11)
unfolding parse_int digit_of
parse_int-blank = refl

parse_int-none : parse_int "px" ≡ none
unfolding parse_int digit_of
parse_int-none = refl

configuration-with_defaults_example :
    configuration_factory (with_defaults (only "REDIS_PORT" "6380"))
    ≡ configuration_factory (only "REDIS_PORT" "6380")
configuration-with_defaults_example = configuration-with_defaults (only "REDIS_PORT" "6380")
