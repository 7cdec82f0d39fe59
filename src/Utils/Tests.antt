-- ===== src/Utils/Tests.antt =====
-- A query, the pages of a listing and a correlation id.
use nestjs_microservice_plat.Prelude.{ℕ, List, [], ◌∷◌, arith}
use nestjs_microservice_plat.Utils.Correlation.{IsSafe}

-- "minted-1", and a text with a line break
abbrev minted : List ℕ
minted = 109 ∷ 105 ∷ 110 ∷ 116 ∷ 101 ∷ 100 ∷ 45 ∷ 49 ∷ []

minted-IsSafe : IsSafe minted
minted-IsSafe = ground arith
