-- ===== src/Utils/KeySorting.antt =====
-- The order by UTF-16 code units is total, and the order of insertions into a sorted list of keys
-- does not matter.
use Prim.Native.Char.{Char, code}
use Prim.Native.String as Text
use text.Mathlib.TextEquality.{codes_equal}
use nestjs_microservice_plat.Prelude.{◌≡◌, ◌<◌, refl, String, List, [], ◌∷◌, true, ◌||◌, arith}
use nestjs_microservice_plat.Utils.Hash.{unit_rank, before, insert_key}

code-lt : (c : Char) → code c < 1114112
code-lt (Char.char n p) = ground arith

unit_rank_injective : (c d : Char) → unit_rank c ≡ unit_rank d → c ≡ d
unfolding unit_rank
unit_rank_injective c d h =
    let low = code-lt c in let low_d = code-lt d in codes_equal c d (ground arith)

before_total : (s t : String) → (before s t || before t s) ≡ true
unfolding before
before_total Text.[] t = refl
before_total (Text.◌∷◌ c s) Text.[] = refl
before_total (Text.◌∷◌ c s) (Text.◌∷◌ d t) = ground (arith, before_total s t)

before_antisym : (s t : String) → before s t ≡ true → before t s ≡ true → s ≡ t
unfolding before
before_antisym Text.[] Text.[] h k = refl
before_antisym Text.[] (Text.◌∷◌ d t) h k = ground arith
before_antisym (Text.◌∷◌ c s) Text.[] h k = ground arith
before_antisym (Text.◌∷◌ c s) (Text.◌∷◌ d t) h k =
    let ranks : unit_rank c ≡ unit_rank d = ground arith in
    let rest : s ≡ t = before_antisym s t (ground arith) (ground arith) in
    λ i. Text.◌∷◌ (unit_rank_injective c d ranks i) (rest i)

before_trans : (s t u : String) → before s t ≡ true → before t u ≡ true → before s u ≡ true
unfolding before
before_trans Text.[] t u h k = refl
before_trans (Text.◌∷◌ c s) Text.[] u h k = ground arith
before_trans (Text.◌∷◌ c s) (Text.◌∷◌ d t) Text.[] h k = ground arith
before_trans (Text.◌∷◌ c s) (Text.◌∷◌ d t) (Text.◌∷◌ e u) h k = ground (arith, before_trans s t u)

pub insert_key-insert_key :
    (a b : String) (xs : List String)
    → insert_key a (insert_key b xs) ≡ insert_key b (insert_key a xs)
unfolding insert_key
insert_key-insert_key a b [] = ground (arith, before_total a b, before_antisym a b)
insert_key-insert_key a b (x ∷ xs) = ground (
  arith,
  before_total a b,
  before_antisym a b,
  before_trans a b x,
  before_trans b a x,
  before_total a x,
  before_total b x,
  insert_key-insert_key a b xs,
)
