-- ===== src/Config/Numbers.antt =====
-- JavaScript's `parseInt(text, 10)`, and what it makes of a decimal numeral.
use Prim.Native.Char.{Char, code}
use Prim.Native.String.append
use Prim.Native.String.{[], ◌∷◌, ◌++◌}
use nestjs_microservice_plat.Js.{default}
use nestjs_microservice_plat.Prelude.{
  ℕ, zero, suc, ◌+◌, ◌*◌, ◌-◌, ℤ, pos, negsuc, ◌≡◌, refl, ap, ◌∙◌, ◌≢◌, String, Bool, false, ◌&&◌,
  ◌||◌, Option, none, some, leb, nat_eq, arith, if◌then◌else◌,
}

-- the value of a digit
unfoldable pub digit_of : Char → Option ℕ
digit_of c = if leb b'0' (code c) && leb (code c) b'9' then some (code c - b'0') else none

-- The digits at the front of a text, after those that are read already.
unfoldable pub read_digits : ℕ → String → ℕ
read_digits n [] = n
read_digits n (c ∷ s) = elim (digit_of c) [ none ↦ n | some d ↦ read_digits (n * 10 + d) s ]

-- a number without a sign; `none` is `NaN`
unfoldable pub read_unsigned : String → Option ℕ
unfolding read_digits
read_unsigned [] = none
read_unsigned (c ∷ s) = elim (digit_of c) [ none ↦ none | some d ↦ some (read_digits d s) ]

-- `-n`
abbrev pub negated : ℕ → ℤ
negated zero = pos 0
negated (suc n) = negsuc n

-- the white space of ASCII
unfoldable pub is_blank : Char → Bool
is_blank c = nat_eq (code c) 32 || leb 9 (code c) && leb (code c) 13

unfoldable pub read_signed : String → Option ℤ
unfolding read_unsigned
read_signed [] = none
read_signed (c ∷ s) =
    if nat_eq (code c) b'-'
    then elim (read_unsigned s) [ none ↦ none | some n ↦ some (negated n) ]
    else elim (read_unsigned (if nat_eq (code c) b'+' then s else c ∷ s)) [
      | none ↦ none
      | some n ↦ some (pos n)
    ]

-- `parseInt(text, 10)`: blanks in front and everything after the digits are left out.
unfoldable pub parse_int : String → Option ℤ
unfolding read_signed is_blank
parse_int [] = none
parse_int (c ∷ s) = let rest = parse_int s in if is_blank c then rest else read_signed (c ∷ s)

-- Digits only.
abbrev pub IsNumeral : String → Type 0
IsNumeral [] = Unit
IsNumeral (c ∷ s) = ((d : ℕ) × (digit_of c ≡ some d)) × IsNumeral s

-- The value of a numeral, digit by digit with the powers of ten.
abbrev pub tens : String → ℕ
tens [] = 1
tens (c ∷ s) = 10 * tens s

abbrev pub value : String → ℕ
value [] = 0
value (c ∷ s) = default (digit_of c) 0 * tens s + value s

-- A text at which the reading of digits ends.
abbrev pub Stops : String → Type 0
Stops [] = Unit
Stops (c ∷ s) = digit_of c ≡ none

read_digits-numeral :
    (n : ℕ) (s rest : String)
    → IsNumeral s
    → Stops rest
    → read_digits n (s ++ rest) ≡ n * tens s + value s
unfolding read_digits
read_digits-numeral n [] [] h stop = omega arith
read_digits-numeral n [] (c ∷ s) h stop =
    ap (read_digits n) (append.nil (c ∷ s)) ∙ rw (read_digits, stop) (omega arith)
read_digits-numeral n (c ∷ s) rest ((d, is), h) stop =
    let step : read_digits n (c ∷ (s ++ rest)) ≡ read_digits (n * 10 + d) (s ++ rest) =
      rw (read_digits, is) refl in
    ap (read_digits n) (append.cons c s rest)
    ∙ step
    ∙ read_digits-numeral (n * 10 + d) s rest h stop
    ∙ rw is (omega arith)

-- A digit is no blank and no sign.
digit_plain :
    (c : Char) (d : ℕ)
    → digit_of c ≡ some d
    → (is_blank c ≡ false) × (nat_eq (code c) b'-' ≡ false) × (nat_eq (code c) b'+' ≡ false)
unfolding digit_of is_blank
digit_plain c d h = (ground arith, ground arith, ground arith)

-- The number of a text that starts with digits is theirs, whatever stops them.
pub parse_int-numeral :
    (s rest : String)
    → IsNumeral s
    → s ≢ ""
    → Stops rest
    → parse_int (s ++ rest) ≡ some (pos (value s))
unfolding parse_int read_signed read_unsigned
parse_int-numeral [] rest h some_digit stop = absurd (some_digit refl)
parse_int-numeral (c ∷ s) rest ((d, is), h) some_digit stop =
    let (no_blank, no_minus, no_plus) = digit_plain c d is in
    rw (append.cons c s rest, no_blank, no_minus, no_plus, is, read_digits-numeral d s rest h stop)
      refl
