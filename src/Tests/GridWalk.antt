-- ===== src/Tests/GridWalk.antt =====
-- Walks in a grid of three rows and two columns with one door.
use raft_rl_test.Base.{◌≡◌, refl, List, [], ◌∷◌, arith}
use raft_rl_test.Base.Every.{Every}
use raft_rl_test.Base.Int.{pos}
use raft_rl_test.Grid.World.{
  Door, Movement, up, right, next, GridEnvironment, new_grid, reset, door_at, move, step, actions,
}
use raft_rl_test.Grid.Bounds.{walk, Inside, Moves, walk-Inside, actions-Moves}

abbrev door : Door
door = record {
  from = record { i = pos 2; j = pos 1; k = pos 0 };
  to = record { i = pos 1; j = pos 0; k = pos 1 };
}

abbrev path : List Movement
path = up ∷ up ∷ up ∷ right ∷ right ∷ next ∷ []

abbrev grid : GridEnvironment
grid = new_grid (pos 3) (pos 2) (pos 2) (door ∷ [])

walks_through : (walk (reset grid) path).cur_pos ≡ door.to
unfolding walk step move door_at reset new_grid
walks_through = refl

walk-Inside_example : Inside (pos 3) (pos 2) (walk (reset grid) path).cur_pos
walk-Inside_example =
    walk-Inside (pos 3) (pos 2) (pos 2) (door ∷ []) path (omega arith, omega arith)
      (omega arith, omega arith) ((omega arith, omega arith), tt)

actions-Moves_example : Every (Moves grid) (actions grid.cur_pos)
unfolding new_grid
actions-Moves_example = actions-Moves grid (omega arith, omega arith)
