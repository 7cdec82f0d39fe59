-- ===== src/Dto/Password.antt =====
-- The expression of register.dto.ts and change-password.dto.ts for passwords,
-- `/(?=.*[a-z])(?=.*[A-Z])(?=.*\d)(?=.*[^A-Za-z0-9])/`, and what it means.
use Prim.Native.Char.{Char, code}
use Prim.Native.String.{[], ◌∷◌}
use nestjs_microservice_plat.Prelude.{
  ◌≡◌, refl, ◌↔◌, String, Bool, true, false, not, ◌&&◌, ◌||◌, nat_eq, leb, arith, inl, inr,
  Bool-cases,
}

unfoldable pub is_lower : Char → Bool
is_lower c = leb b'a' (code c) && leb (code c) b'z'

unfoldable pub is_upper : Char → Bool
is_upper c = leb b'A' (code c) && leb (code c) b'Z'

unfoldable pub is_digit : Char → Bool
is_digit c = leb b'0' (code c) && leb (code c) b'9'

-- `[^A-Za-z0-9]`
unfoldable pub is_special : Char → Bool
unfolding is_lower is_upper is_digit
is_special c = not (is_upper c || is_lower c || is_digit c)

-- The characters that `.` leaves out: line feed, carriage return and the two separators.
unfoldable pub ends_line : Char → Bool
ends_line c =
    nat_eq (code c) 10 || nat_eq (code c) 13 || nat_eq (code c) 8232 || nat_eq (code c) 8233

-- `(?=.*X)` at the front of a text
unfoldable pub ahead : (Char → Bool) → String → Bool
unfolding ends_line
ahead test [] = false
ahead test (c ∷ s) = test c || not (ends_line c) && ahead test s

unfoldable pub strong_at : String → Bool
unfolding ahead is_lower is_upper is_digit is_special
strong_at s = ahead is_lower s && ahead is_upper s && ahead is_digit s && ahead is_special s

-- the match at some place of the text
unfoldable pub is_strong : String → Bool
unfolding strong_at
is_strong [] = strong_at []
is_strong (c ∷ s) = strong_at (c ∷ s) || is_strong s

-- Some character passes the test.
abbrev pub has : (Char → Bool) → String → Bool
has test [] = false
has test (c ∷ s) = test c || has test s

-- A character of each kind.
abbrev pub HasAllKinds : String → Type 0
HasAllKinds s =
    (has is_lower s ≡ true)
    × (has is_upper s ≡ true)
    × (has is_digit s ≡ true)
    × (has is_special s ≡ true)

-- A text of one line.
abbrev pub IsLine : String → Type 0
IsLine [] = Unit
IsLine (c ∷ s) = (ends_line c ≡ false) × IsLine s

ahead-has : (test : Char → Bool) (s : String) → ahead test s ≡ true → has test s ≡ true
unfolding ahead
ahead-has test [] h = h
ahead-has test (c ∷ s) h = ground (arith, ahead-has test s)

has-ahead : (test : Char → Bool) (s : String) → IsLine s → ahead test s ≡ has test s
unfolding ahead
has-ahead test [] line = refl
has-ahead test (c ∷ s) (same, line) = ground (arith, has-ahead test s line)

strong_at-HasAllKinds : (s : String) → strong_at s ≡ true → HasAllKinds s
unfolding strong_at
strong_at-HasAllKinds s h = (
  ahead-has is_lower s (ground arith),
  ahead-has is_upper s (ground arith),
  ahead-has is_digit s (ground arith),
  ahead-has is_special s (ground arith),
)

-- A text that matches has a character of each kind.
pub is_strong-HasAllKinds : (s : String) → is_strong s ≡ true → HasAllKinds s
unfolding is_strong
is_strong-HasAllKinds [] h = strong_at-HasAllKinds [] h
is_strong-HasAllKinds (c ∷ s) h = elim (Bool-cases (strong_at (c ∷ s))) [
  | inl here ↦ strong_at-HasAllKinds (c ∷ s) here
  | inr later ↦
      let (lower, upper, digit, special) = is_strong-HasAllKinds s (ground arith) in
      (ground arith, ground arith, ground arith, ground arith)
]

HasAllKinds-strong_at : (s : String) → IsLine s → HasAllKinds s → strong_at s ≡ true
unfolding strong_at
HasAllKinds-strong_at s line (lower, upper, digit, special) =
    rw
      (
        has-ahead is_lower s line,
        has-ahead is_upper s line,
        has-ahead is_digit s line,
        has-ahead is_special s line,
      )
      (ground arith)

HasAllKinds-is_strong : (s : String) → IsLine s → HasAllKinds s → is_strong s ≡ true
unfolding is_strong
HasAllKinds-is_strong [] line all = HasAllKinds-strong_at [] line all
HasAllKinds-is_strong (c ∷ s) line all =
    let here = HasAllKinds-strong_at (c ∷ s) line all in ground arith

-- A password of one line matches exactly when it has a lower-case letter, an upper-case letter, a
-- digit and another character.
pub is_strong_iff : (s : String) → IsLine s → (is_strong s ≡ true) ↔ HasAllKinds s
is_strong_iff s line = (is_strong-HasAllKinds s, HasAllKinds-is_strong s line)
