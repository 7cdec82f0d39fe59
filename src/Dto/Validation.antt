-- ===== src/Dto/Validation.antt =====
-- class-validator, which the ValidationPipe of the gateway runs on the DTOs of libs/dto/src and
-- apps/api-gateway/src/modules: a parameter, with what its documentation says of the decorators.
use Prim.Native.String as Text
use nestjs_microservice_plat.Prelude.{
  ℕ, ◌≡◌, ℤ, pos, negsuc, String, List, [], ◌∷◌, Bool, true, false, ◌&&◌, ◌||◌, Option, none, some,
  leb, includes, all,
}
use nestjs_microservice_plat.Js.{Value, null, num, str, Object}
use nestjs_microservice_plat.Dto.{
  Rule, Dto, is_string, is_email, is_int, is_optional, strong, to_int, min_length, max_length,
  at_least, at_most, is_in, initially,
}
use nestjs_microservice_plat.Dto.Password.{is_strong}

-- A text with a property.
abbrev pub texts : (String → Bool) → Option Value → Bool
texts test (some (str s)) = test s
texts test _ = false

-- A whole number with a property.
abbrev pub numbers : (ℤ → Bool) → Option Value → Bool
numbers test (some (num z)) = test z
numbers test _ = false

abbrev pub from : ℕ → ℤ → Bool
from n (pos m) = leb n m
from n (negsuc m) = false

abbrev pub up_to : ℕ → ℤ → Bool
up_to n (pos m) = leb m n
up_to n (negsuc m) = true

-- What a field meets at least that passes a decorator. An email is at least a text.
abbrev pub meets : Option Value → Rule → Bool
meets v is_string = texts (λ s. true) v
meets v is_email = texts (λ s. true) v
meets v (min_length n) = texts (λ s. leb n (Text.count s)) v
meets v (max_length n) = texts (λ s. leb (Text.count s) n) v
meets v strong = texts is_strong v
meets v (is_in names) = texts (includes names) v
meets v is_int = numbers (λ z. true) v
meets v (at_least n) = numbers (from n) v
meets v (at_most n) = numbers (up_to n) v
meets v is_optional = true
meets v to_int = true
meets v (initially d) = true

-- `@IsOptional()` leaves a field unchecked that is `null` or `undefined`.
abbrev pub is_missing : Option Value → Bool
is_missing none = true
is_missing (some null) = true
is_missing (some v) = false

abbrev pub may_miss : List Rule → Bool
may_miss [] = false
may_miss (is_optional ∷ rules) = true
may_miss (rule ∷ rules) = may_miss rules

abbrev pub field_meets : List Rule → Option Value → Bool
field_meets rules v = may_miss rules && is_missing v || all (meets v) rules

abbrev pub object_meets : Object → Dto → Bool
object_meets o [] = true
object_meets o ((name, rules) ∷ dto) = field_meets rules (o name) && object_meets o dto

-- `accepts dto o`: the instance `o` of the class `dto`, after its transformation, has no errors.
pub record Validator : Type 0 where
  pub accepts : Dto → Object → Bool
  pub documented : (dto : Dto) (o : Object) → accepts dto o ≡ true → object_meets o dto ≡ true
