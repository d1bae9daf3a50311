-- ===== src/Grid/World.antt =====
-- The GridEnvironment of grid/env.go. Coordinates and sizes are Go's `int`.
use raft_rl_test.Base.{Bool, ◌&&◌, List, [], ◌∷◌, Option, some, none, if◌then◌else◌}
use raft_rl_test.Base.Int.{ℤ, pos, eqb_ℤ, max_ℤ, min_ℤ, add_int, sub_one}

pub record Position : Type 0 where
  pub i : ℤ
  pub j : ℤ
  pub k : ℤ

pub record Door : Type 0 where
  pub from : Position
  pub to : Position

pub data Movement : Type 0 where
  up down left right nothing next : Movement

pub record GridEnvironment : Type 0 where
  pub height : ℤ
  pub width : ℤ
  pub grids : ℤ
  pub cur_pos : Position
  pub doors : List Door

abbrev pub origin : Position
origin = record { i = pos 0; j = pos 0; k = pos 0 }

unfoldable pub new_grid : ℤ → ℤ → ℤ → List Door → GridEnvironment
new_grid height width grids doors = record {
  height = height;
  width = width;
  grids = grids;
  cur_pos = origin;
  doors = doors;
}

unfoldable pub reset : GridEnvironment → GridEnvironment
reset g = record g { cur_pos = origin }

abbrev pub eq_position : Position → Position → Bool
eq_position p q = eqb_ℤ p.i q.i && (eqb_ℤ p.j q.j && eqb_ℤ p.k q.k)

-- The far end of the first door at a position.
unfoldable pub door_at : List Door → Position → Option Position
door_at [] p = none
door_at (d ∷ ds) p = if eq_position d.from p then some d.to else door_at ds p

abbrev pub through : Option Position → Position → Position
through none p = p
through (some q) p = q

-- The position that a movement leads to. The code looks for a door twice, with the same answer.
unfoldable pub move : GridEnvironment → Movement → Position
unfolding door_at
move g nothing = g.cur_pos
move g up = record g.cur_pos { i = min_ℤ (sub_one g.height) (add_int g.cur_pos.i 1) }
move g down = record g.cur_pos { i = max_ℤ (pos 0) (sub_one g.cur_pos.i) }
move g left = record g.cur_pos { j = max_ℤ (pos 0) (sub_one g.cur_pos.j) }
move g right = record g.cur_pos { j = min_ℤ (sub_one g.width) (add_int g.cur_pos.j 1) }
move g next = through (door_at g.doors g.cur_pos) g.cur_pos

unfoldable pub step : GridEnvironment → Movement → GridEnvironment
unfolding move
step g m = record g { cur_pos = move g m }

-- The movements offered at a position.
unfoldable pub actions : Position → List Movement
actions p =
    if eqb_ℤ p.i (pos 0) && eqb_ℤ p.j (pos 0)
    then nothing ∷ next ∷ up ∷ right ∷ []
    else if eqb_ℤ p.i (pos 0)
    then nothing ∷ next ∷ up ∷ right ∷ left ∷ []
    else if eqb_ℤ p.j (pos 0)
    then nothing ∷ next ∷ up ∷ right ∷ down ∷ []
    else up ∷ down ∷ left ∷ right ∷ nothing ∷ next ∷ []
