-- ===== src/Config/Origins.antt =====
-- The list of origins that the gateway reads from CORS_ORIGINS.
use Prim.Native.Char.{code}
use Prim.Native.String
use nestjs_microservice_plat.Prelude.{
  ◌≡◌, refl, ◌≢◌, inl, inr, String, List, [], ◌∷◌, Bool, true, false, not, ◌==◌, nat_eq, arith, All,
  keep, Bool-cases,
}
use nestjs_microservice_plat.Config.{Env}
use nestjs_microservice_plat.Config.Configuration.{
  split_commas, cons_char, text, configuration_factory,
}

abbrev pub HasNoComma : String → Type 0
HasNoComma String.[] = Unit
HasNoComma (String.◌∷◌ c s) = (code c ≢ b',') × HasNoComma s

-- The parts, put together with commas.
abbrev pub join_commas : List String → String
join_commas [] = ""
join_commas (part ∷ []) = part
join_commas (part ∷ (next ∷ parts)) = String.◌++◌ part (String.◌∷◌ "," (join_commas (next ∷ parts)))

split-HasNoComma : (s : String) → All HasNoComma (split_commas s)
unfolding split_commas
split-HasNoComma String.[] = (tt, tt)
split-HasNoComma (String.◌∷◌ c s) = elim (Bool-cases (nat_eq (code c) b',')) [
  | inl comma ↦ rw comma (tt, split-HasNoComma s)
  | inr other ↦ rw other (cons_char-HasNoComma (split_commas s) (ground arith) (split-HasNoComma s))
]
  where
    cons_char-HasNoComma :
        (parts : List String)
        → code c ≢ b','
        → All HasNoComma parts
        → All HasNoComma (cons_char c parts)
    cons_char-HasNoComma [] h rest = ((h, tt), tt)
    cons_char-HasNoComma (part ∷ parts) h (first, rest) = ((h, first), rest)

keep-All :
    (p : String → Bool) (P : String → Type 0) (parts : List String)
    → All P parts
    → All (λ part. P part × (p part ≡ true)) (keep p parts)
keep-All p P [] h = tt
keep-All p P (part ∷ parts) (first, rest) = by_test (p part) refl (keep-All p P parts rest)
  where
    by_test :
        (b : Bool)
        → p part ≡ b
        → All (λ x. P x × (p x ≡ true)) (keep p parts)
        → All
            (λ x. P x × (p x ≡ true))
            (elim b [ true ↦ part ∷ keep p parts | false ↦ keep p parts ])
    by_test true h kept = ((first, h), kept)
    by_test false h kept = kept

-- No origin of the configuration has a comma or is empty.
pub cors_origins_clean :
    (env : Env)
    → All
        (λ origin. HasNoComma origin × (not (origin == "") ≡ true))
        (configuration_factory env).gateway.cors_origins
unfolding configuration_factory
cors_origins_clean env =
    keep-All (λ part. not (part == "")) HasNoComma (split_commas (text env "CORS_ORIGINS" ""))
      (split-HasNoComma (text env "CORS_ORIGINS" ""))
