-- ===== src/Prelude/Texts.antt =====
-- Prefixes of texts.
use Prim.Native.Char.{code}
use Prim.Native.String.{String, [], ◌∷◌, ◌++◌}
use Prim.Native.String.append
use mathlib.Core.Path.{◌≡◌, refl, ap, sym, ◌∙◌, subst}
use mathlib.Core.Bool.{Bool, true, false}
use mathlib.Core.Logic.{inl, inr}
use mathlib.Core.Option.{Option, none, some}
use native.Mathlib.Omega.{arith}
use text.Mathlib.TextEquality.{eq_iff}
use text.Mathlib.TextPositions.{eq_refl}
use nestjs_microservice_plat.Prelude.Tests.{nat_eq, if◌then◌else◌, ◌==◌, Bool-cases}

-- `p` off the front of a text
unfoldable pub strip : String → String → Option String
strip [] s = some s
strip (c ∷ p) [] = none
strip (c ∷ p) (d ∷ s) = if nat_eq (code c) (code d) then strip p s else none

-- Two texts differ at a place that both have.
unfoldable pub clash : String → String → Bool
clash [] q = false
clash (c ∷ p) [] = false
clash (c ∷ p) (d ∷ q) = if nat_eq (code c) (code d) then clash p q else true

pub strip-append : (p s : String) → strip p (p ++ s) ≡ some s
unfolding strip
strip-append [] s = rw (append.nil s) refl
strip-append (c ∷ p) s = rw (append.cons c p s) (ground (arith, strip-append p s))

pub strip-clash : (p q s : String) → clash p q ≡ true → strip p (q ++ s) ≡ none
unfolding strip clash
strip-clash [] q s h = ground arith
strip-clash (c ∷ p) [] s h = ground arith
strip-clash (c ∷ p) (d ∷ q) s h = rw (append.cons d q s) (ground (arith, strip-clash p q s))

-- Texts with one prefix are equal where their rests are.
pub prefix-eq : (p s t : String) → ((p ++ s) == (p ++ t)) ≡ (s == t)
prefix-eq p s t = elim (Bool-cases (s == t)) [
  | inl same ↦
      let e : s ≡ t = (eq_iff s t).0 same in
      subst (λ x. ((p ++ s) == (p ++ x)) ≡ (s == x)) e (eq_refl (p ++ s) ∙ sym (eq_refl s))
  | inr other ↦ elim (Bool-cases ((p ++ s) == (p ++ t))) [
    | inr apart ↦ apart ∙ sym other
    | inl equal ↦
        let whole : p ++ s ≡ p ++ t = (eq_iff (p ++ s) (p ++ t)).0 equal in
        let rests : some s ≡ some t =
          sym (strip-append p s) ∙ ap (strip p) whole ∙ strip-append p t in
        let same_rests : s ≡ t = cc in equal ∙ sym ((eq_iff s t).1 same_rests)
  ]
]
