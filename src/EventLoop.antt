-- ===== src/EventLoop.antt =====
-- Methods that run at once in one process: node goes on with one of them until it awaits again, and
-- in which order they go on is the schedule.
pub mod Bounds
use nestjs_microservice_plat.Prelude.{ℕ, zero, suc, List, [], ◌∷◌, All}

-- A method, cut where it awaits, is the step from one state to the next.
module _ {S W : Type 0} (step : S → W → S × W) where
  -- The step of the method with a number.
  unfoldable pub turn : ℕ → List S → W → List S × W
  turn i [] w = ([], w)
  turn zero (s ∷ rest) w = let t = step s w in (t.0 ∷ rest, t.1)
  turn (suc i) (s ∷ rest) w = let t = turn i rest w in (s ∷ t.0, t.1)

  -- The steps in the order of a schedule.
  unfoldable pub interleave : List ℕ → List S → W → List S × W
  unfolding turn
  interleave [] all w = (all, w)
  interleave (i ∷ schedule) all w = let t = turn i all w in interleave schedule t.0 t.1

  -- What every step keeps, of the world and of its own method, every schedule keeps.
  module _ (Fine : W → Type 0) (Good : S → Type 0)
      (keeps : (s : S) (w : W) → Fine w → Good s → Fine (step s w).1 × Good (step s w).0) where
    turn-keeps :
        (i : ℕ) (all : List S) (w : W)
        → Fine w
        → All Good all
        → Fine (turn i all w).1 × All Good (turn i all w).0
    unfolding turn
    turn-keeps i [] w fine good = (fine, good)
    turn-keeps zero (s ∷ rest) w fine (first, others) =
        let (fine', first') = keeps s w fine first in (fine', (first', others))
    turn-keeps (suc i) (s ∷ rest) w fine (first, others) =
        let (fine', others') = turn-keeps i rest w fine others in (fine', (first, others'))

    pub interleave-keeps :
        (schedule : List ℕ) (all : List S) (w : W)
        → Fine w
        → All Good all
        → Fine (interleave schedule all w).1 × All Good (interleave schedule all w).0
    unfolding interleave
    interleave-keeps [] all w fine good = (fine, good)
    interleave-keeps (i ∷ schedule) all w fine good =
        let t = turn i all w in
        let (fine', good') = turn-keeps i all w fine good in
        interleave-keeps schedule t.0 t.1 fine' good'
