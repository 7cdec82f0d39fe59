-- ===== src/Auth/StrategyTests.antt =====
-- The refresh strategy with concrete extractors.
use nestjs_microservice_plat.Prelude.{ap, none, some, ◌==◌, arith, if◌then◌else◌, eq_iff}
use nestjs_microservice_plat.Auth.Strategies.{
  Extractor, Extraction, strip_bearer, strip_bearer-append,
}

-- The first token that is not empty.
abbrev pub first_token : Extractor → Extractor → Extractor
first_token f g request = elim (f request) [
  | none ↦ g request
  | some token ↦ if token == "" then g request else some token
]

abbrev pub header_token : Extractor
header_token request = elim request.authorization [
  | none ↦ none
  | some header ↦ some (strip_bearer header)
]

pub first_token-Extraction : Extraction first_token header_token
first_token-Extraction = record {
  first = λ f g request token found given. ground (arith, eq_iff token "");
  second = λ f g request missing. ground arith;
  header = λ request token sent given plain. rw sent (ap some (strip_bearer-append token plain));
}
