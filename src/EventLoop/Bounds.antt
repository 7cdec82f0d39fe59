-- ===== src/EventLoop/Bounds.antt =====
-- How many steps a method has ahead while others run.
use nestjs_microservice_plat.Prelude.{ℕ, zero, suc, ◌+◌, ◌-◌, ◌≤◌, List, [], ◌∷◌, arith}
use nestjs_microservice_plat.EventLoop.{turn, interleave}

-- 1 if the step is one of the method.
abbrev pub is_turn : ℕ → ℕ → ℕ
is_turn zero zero = 1
is_turn zero (suc j) = 0
is_turn (suc i) zero = 0
is_turn (suc i) (suc j) = is_turn i j

-- How many steps a schedule gives to a method.
abbrev pub turns_of : ℕ → List ℕ → ℕ
turns_of i [] = 0
turns_of i (j ∷ schedule) = is_turn i j + turns_of i schedule

module _ {S : Type 0} (ahead : S → ℕ) where
  -- The steps that the method with a number has ahead, 0 if there is none.
  abbrev pub ahead_at : ℕ → List S → ℕ
  ahead_at i [] = 0
  ahead_at zero (s ∷ rest) = ahead s
  ahead_at (suc i) (s ∷ rest) = ahead_at i rest

module _ {S W : Type 0} (step : S → W → S × W) (ahead : S → ℕ)
    (shorter : (s : S) (w : W) → ahead (step s w).0 ≤ ahead s - 1) where
  turn-ahead :
      (i j : ℕ) (all : List S) (w : W)
      → ahead_at ahead i (turn step j all w).0 ≤ ahead_at ahead i all - is_turn i j
  unfolding turn
  turn-ahead i j [] w = omega arith
  turn-ahead zero zero (s ∷ rest) w = shorter s w
  turn-ahead zero (suc j) (s ∷ rest) w = omega arith
  turn-ahead (suc i) zero (s ∷ rest) w = omega arith
  turn-ahead (suc i) (suc j) (s ∷ rest) w = turn-ahead i j rest w

  -- Every step of a method leaves it one less.
  pub interleave-ahead :
      (i : ℕ) (schedule : List ℕ) (all : List S) (w : W)
      → ahead_at ahead i (interleave step schedule all w).0
        ≤ ahead_at ahead i all - turns_of i schedule
  unfolding interleave
  interleave-ahead i [] all w = omega arith
  interleave-ahead i (j ∷ schedule) all w =
      let t = turn step j all w in
      ground (arith, turn-ahead i j all w, interleave-ahead i schedule t.0 t.1)
