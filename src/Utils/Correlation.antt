-- ===== src/Utils/Correlation.antt =====
-- libs/common/src/utils/correlation.util.ts. A header is the list of its code units; the id that
-- `uuidv4` mints is a parameter.
use nestjs_microservice_plat.Prelude.{
  ℕ, ◌≤◌, ◌≡◌, refl, ◌⊎◌, inl, inr, List, [], ◌∷◌, Bool, true, ◌&&◌, ◌||◌, Option, none, some,
  arith, leb, nat_eq, if◌then◌else◌, length, all, All, Bool-cases,
}

-- The class `[\w-]`: letters, digits, underscore and dash.
unfoldable pub is_word_or_dash : ℕ → Bool
is_word_or_dash c =
    (leb b'a' c && leb c b'z')
    || (leb b'A' c && leb c b'Z')
    || (leb b'0' c && leb c b'9')
    || nat_eq c b'_'
    || nat_eq c b'-'

-- `/^[\w-]{8,64}$/.test(text)`
unfoldable pub looks_safe : List ℕ → Bool
unfolding is_word_or_dash
looks_safe text = leb 8 (length text) && leb (length text) 64 && all is_word_or_dash text

-- `minted` is what `uuidv4()` returns.
unfoldable pub get_or_create_correlation_id : List ℕ → Option (List ℕ) → List ℕ
unfolding looks_safe
get_or_create_correlation_id minted none = minted
get_or_create_correlation_id minted (some incoming) =
    if looks_safe incoming then incoming else minted

-- No character of a log line's structure: a control character, a space or a quote.
abbrev pub IsHarmless : ℕ → Type 0
IsHarmless c = (b'-' ≤ c) × (c ≤ b'z')

-- An id that may go into a log line and a header: short, and of harmless characters only.
abbrev pub IsSafe : List ℕ → Type 0
IsSafe text = (8 ≤ length text) × (length text ≤ 64) × All IsHarmless text

word-IsHarmless : (c : ℕ) → is_word_or_dash c ≡ true → IsHarmless c
unfolding is_word_or_dash
word-IsHarmless c h = ground arith

all-IsHarmless : (text : List ℕ) → all is_word_or_dash text ≡ true → All IsHarmless text
all-IsHarmless [] h = tt
all-IsHarmless (c ∷ cs) h = (word-IsHarmless c (ground arith), all-IsHarmless cs (ground arith))

looks_safe-IsSafe : (text : List ℕ) → looks_safe text ≡ true → IsSafe text
unfolding looks_safe
looks_safe-IsSafe text h = (ground arith, ground arith, all-IsHarmless text (ground arith))

-- Whatever header a client sends, the correlation id is the header or the minted one, has 8 to 64
-- characters and none outside the range from dash to z, provided that the minted one does.
pub correlation_id-IsSafe :
    (minted : List ℕ) (incoming : Option (List ℕ))
    → IsSafe minted
    → let id = get_or_create_correlation_id minted incoming in
      IsSafe id × ((some id ≡ incoming) ⊎ (id ≡ minted))
unfolding get_or_create_correlation_id
correlation_id-IsSafe minted none h = (h, inr refl)
correlation_id-IsSafe minted (some incoming) h = elim (Bool-cases (looks_safe incoming)) [
  | inl safe ↦ rw safe (looks_safe-IsSafe incoming safe, inl refl)
  | inr unsafe ↦ rw unsafe (h, inr refl)
]
