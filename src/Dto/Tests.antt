-- ===== src/Dto/Tests.antt =====
-- A strict validator, and what it accepts.
use nestjs_microservice_plat.Prelude.{◌≡◌, refl, pos, String, true, false, some}
use nestjs_microservice_plat.Js.{num, str, Object, empty, put}
use nestjs_microservice_plat.Dto.{
  create_user_dto, register_dto, change_password_dto, mod_register_dto, pagination_dto,
}
use nestjs_microservice_plat.Dto.Password.{
  is_strong, ahead, strong_at, is_special, is_lower, is_upper, is_digit, ends_line,
}
use nestjs_microservice_plat.Dto.Validation.{Validator, object_meets}
use nestjs_microservice_plat.Dto.Laws.{changing, new_password, IsGood, accepted_password-IsGood}

-- It accepts whatever its documentation allows.
abbrev lenient : Validator
lenient = record { accepts = λ dto o. object_meets o dto; documented = λ dto o h. h }

abbrev change : Object
change = put "currentPassword" (str "x") (put "newPassword" (str "StrongP@ss1") empty)

change_accepted : lenient.accepts change_password_dto change ≡ true
unfolding is_strong ahead strong_at is_special is_lower is_upper is_digit ends_line
change_accepted = refl

accepted_password-IsGood_example :
    (s : String) × (new_password changing change ≡ some (str s)) × IsGood s
accepted_password-IsGood_example = accepted_password-IsGood lenient changing change change_accepted

-- A registration of modules/auth, or an account that an administrator creates, may have a password
-- that the registration of libs/dto refuses.
abbrev weak : Object
weak = put "email" (str "j@x.org") (put "name" (str "Jane") (put "password" (str "aaaaaaaa") empty))

weak_refused :
    (object_meets weak register_dto ≡ false)
    × (object_meets weak mod_register_dto ≡ true)
    × (object_meets weak create_user_dto ≡ true)
unfolding is_strong ahead strong_at is_special is_lower is_upper is_digit ends_line
weak_refused = (refl, refl, refl)

abbrev third_page : Object
third_page = put "page" (num (pos 3)) (put "limit" (num (pos 100)) empty)

third_page_accepted : lenient.accepts pagination_dto third_page ≡ true
third_page_accepted = refl
