-- ===== src/Auth/Strategies.antt =====
-- The strategies of passport: libs/auth/src/jwt-access.strategy.ts and jwt-refresh.strategy.ts, and
-- jwt.strategy.ts of the gateway and of the posts service. The extractors of passport-jwt are
-- parameters.
use Prim.Native.Char.{code}
use Prim.Native.String.{[], ◌∷◌, ◌++◌}
use Prim.Native.String.append
use nestjs_microservice_plat.Prelude.{
  ◌≡◌, refl, ◌≢◌, ◌∙◌, ap, ◌⊎◌, inl, inr, String, false, Option, none, some, nat_eq, if◌then◌else◌,
}
use nestjs_microservice_plat.Js.{Value, null, str, Object, put}
use nestjs_microservice_plat.Constants.{JwtPayload}
use nestjs_microservice_plat.Config.Numbers.{is_blank}

-- `validate` of the strategies for access tokens: what becomes `request.user`
unfoldable pub validate_access : JwtPayload → JwtPayload
validate_access payload = payload

-- What the refresh strategy reads of a request: `cookies?.refreshToken` and `headers.authorization`.
pub record Request : Type 0 where
  pub cookie : Option String
  pub authorization : Option String

-- An extractor of passport-jwt; `none` is `null`.
abbrev pub Extractor : Type 0
Extractor = Request → Option String

-- `req?.cookies?.refreshToken ?? null`
abbrev pub from_cookie : Extractor
from_cookie request = request.cookie

-- What is left of a text after another, if it starts with it.
unfoldable pub drop_prefix : String → String → Option String
drop_prefix [] s = some s
drop_prefix (p ∷ ps) [] = none
drop_prefix (p ∷ ps) (c ∷ s) =
    let rest = drop_prefix ps s in if nat_eq (code p) (code c) then rest else none

unfoldable pub drop_blanks : String → String
unfolding is_blank
drop_blanks [] = []
drop_blanks (c ∷ s) = let rest = drop_blanks s in if is_blank c then rest else c ∷ s

-- `text.replace(/^Bearer\s+/, '')`
unfoldable pub strip_bearer : String → String
unfolding drop_prefix drop_blanks is_blank
strip_bearer s = elim (drop_prefix "Bearer" s) [
  | none ↦ s
  | some [] ↦ s
  | some (c ∷ rest) ↦ if is_blank c then drop_blanks rest else s
]

-- `cookies?.refreshToken ?? (headers.authorization?.replace(/^Bearer\s+/, '') ?? null)`
unfoldable pub refresh_token_of : Request → Option String
unfolding strip_bearer
refresh_token_of request = elim request.cookie [
  | some token ↦ some token
  | none ↦ elim request.authorization [ none ↦ none | some header ↦ some (strip_bearer header) ]
]

-- a text or `null`
abbrev pub or_null : Option String → Value
or_null none = null
or_null (some s) = str s

-- `validate` of the refresh strategy: `{ ...payload, refreshToken }`
unfoldable pub validate_refresh : Request → Object → Object
unfolding refresh_token_of
validate_refresh request payload = put "refreshToken" (or_null (refresh_token_of request)) payload

-- A token starts with no blank.
abbrev pub StartsPlain : String → Type 0
StartsPlain [] = Unit
StartsPlain (c ∷ s) = is_blank c ≡ false

drop_blanks-plain : (s : String) → StartsPlain s → drop_blanks s ≡ s
unfolding drop_blanks
drop_blanks-plain [] h = refl
drop_blanks-plain (c ∷ s) h = rw h refl

pub strip_bearer-append :
    (token : String) → StartsPlain token → strip_bearer ("Bearer " ++ token) ≡ token
unfolding strip_bearer drop_prefix is_blank
strip_bearer-append token h =
    rw
      (
        append.cons "B" "earer " token,
        append.cons "e" "arer " token,
        append.cons "a" "rer " token,
        append.cons "r" "er " token,
        append.cons "e" "r " token,
        append.cons "r" " " token,
        append.cons " " "" token,
        append.nil token,
      )
      (drop_blanks-plain token h)

-- How a client may send its refresh token: in a cookie, or in the header without any cookie.
abbrev pub Sends : Request → String → Type 0
Sends request token =
    (token ≢ "")
    × StartsPlain token
    × ((request.cookie ≡ some token)
        ⊎ ((request.cookie ≡ none) × (request.authorization ≡ some ("Bearer " ++ token))))

-- `ExtractJwt.fromExtractors([f, g])` and `ExtractJwt.fromAuthHeaderAsBearerToken()`, as documented:
-- the first extractor whose token is not empty counts, and the token of the header stands after
-- the scheme.
pub record Extraction (from_extractors : Extractor → Extractor → Extractor)
    (from_header : Extractor) : Type 0 where
  pub first :
      (f g : Extractor) (request : Request) (token : String)
      → f request ≡ some token
      → token ≢ ""
      → from_extractors f g request ≡ some token
  pub second :
      (f g : Extractor) (request : Request)
      → (f request ≡ none) ⊎ (f request ≡ some "")
      → from_extractors f g request ≡ g request
  pub header :
      (request : Request) (token : String)
      → request.authorization ≡ some ("Bearer " ++ token)
      → token ≢ ""
      → StartsPlain token
      → from_header request ≡ some token

module _ (from_extractors : Extractor → Extractor → Extractor) (from_header : Extractor) where
  -- `jwtFromRequest` of the refresh strategy: the token that passport verifies
  unfoldable pub jwt_from_request : Extractor
  jwt_from_request = from_extractors from_cookie from_header

  -- With the extractors of passport-jwt as documented: for a client that sends its refresh token
  -- in the cookie, or without a cookie in the header after "Bearer ", the token that the refresh
  -- strategy passes on is the one that passport verified.
  pub validate_refresh-verified :
      Extraction from_extractors from_header
      → (request : Request) (payload : Object) (token : String) → Sends request token
      → (jwt_from_request request ≡ some token)
        × (validate_refresh request payload "refreshToken" ≡ some (str token))
  unfolding jwt_from_request validate_refresh refresh_token_of
  validate_refresh-verified extraction request payload token (given, plain, inl cookie) =
      (extraction.first from_cookie from_header request token cookie given, rw cookie refl)
  validate_refresh-verified extraction request payload token
        (given, plain, inr (no_cookie, header)) =
      (
        extraction.second from_cookie from_header request (inl no_cookie)
            ∙ extraction.header request token header given plain,
        rw (no_cookie, header) (ap (λ t. some (str t)) (strip_bearer-append token plain)),
      )

  -- With an empty cookie passport verifies the token of the header, and the strategy passes on the
  -- empty text.
  pub empty_cookie-unverified :
      Extraction from_extractors from_header
      → (request : Request) (payload : Object) (token : String) → token ≢ ""
      → StartsPlain token
      → request.cookie ≡ some ""
      → request.authorization ≡ some ("Bearer " ++ token)
      → (jwt_from_request request ≡ some token)
        × (validate_refresh request payload "refreshToken" ≡ some (str ""))
  unfolding jwt_from_request validate_refresh refresh_token_of
  empty_cookie-unverified extraction request payload token given plain cookie header = (
    extraction.second from_cookie from_header request (inr cookie)
        ∙ extraction.header request token header given plain,
    rw cookie refl,
  )
