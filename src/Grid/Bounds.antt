-- ===== src/Grid/Bounds.antt =====
-- A walk never leaves the grid.
use raft_rl_test.Base.{
  ◌≡◌, ◌≤◌, ◌<◌, refl, true, false, ◌&&◌, List, [], ◌∷◌, Option, arith, if-cases, suc, zero,
}
use raft_rl_test.Base.Int.{ℤ, pos, negsuc, eqb_ℤ, max_ℤ, min_ℤ, add_int, sub_one, max_int}
use raft_rl_test.Base.Every.{Every}
use raft_rl_test.Grid.World.{
  Position, Door, Movement, up, down, left, right, nothing, next, GridEnvironment, new_grid, reset,
  eq_position, door_at, through, move, step, actions,
}

-- 0 <= x and x < h.
abbrev pub Within : ℤ → ℤ → Type 0
Within (pos a) (pos h) = a < h
Within (pos a) (negsuc h) = true ≡ false
Within (negsuc a) h = true ≡ false

-- A size is positive and is an `int`.
abbrev pub IsSize : ℤ → Type 0
IsSize (pos h) = (0 < h) × (h ≤ max_int)
IsSize (negsuc h) = true ≡ false

up-Within : (x h : ℤ) → IsSize h → Within x h → Within (min_ℤ (sub_one h) (add_int x 1)) h
up-Within (pos a) (pos zero) s w = ground arith
up-Within (pos a) (pos (suc h)) s w = ground arith
up-Within (pos a) (negsuc h) s w = ground arith
up-Within (negsuc a) h s w = ground arith

down-Within : (x h : ℤ) → IsSize h → Within x h → Within (max_ℤ (pos 0) (sub_one x)) h
down-Within (pos zero) (pos h) s w = ground arith
down-Within (pos (suc a)) (pos h) s w = ground arith
down-Within (pos a) (negsuc h) s w = ground arith
down-Within (negsuc a) h s w = ground arith

-- A position inside a grid of a height and a width.
abbrev pub Inside : ℤ → ℤ → Position → Type 0
Inside h w p = Within p.i h × Within p.j w

abbrev pub DoorsInside : ℤ → ℤ → List Door → Type 0
DoorsInside h w [] = Unit
DoorsInside h w (d ∷ ds) = Inside h w d.to × DoorsInside h w ds

through-Inside :
    (h w : ℤ) (ds : List Door) (from p : Position)
    → DoorsInside h w ds
    → Inside h w p
    → Inside h w (through (door_at ds from) p)
unfolding door_at
through-Inside h w [] from p s v = v
through-Inside h w (d ∷ ds) from p s v =
    if-cases {A = Option Position} (λ q. Inside h w (through q p)) (eq_position d.from from)
      (λ e. s.0) (λ e. through-Inside h w ds from p s.1 v)

-- A grid whose sizes are positive and whose doors lead inside, and a position inside it.
pub record IsSound (g : GridEnvironment) : Type 0 where
  pub high : IsSize g.height
  pub wide : IsSize g.width
  pub doors : DoorsInside g.height g.width g.doors
  pub inside : Inside g.height g.width g.cur_pos

move-Inside : (g : GridEnvironment) (m : Movement) → IsSound g → Inside g.height g.width (move g m)
unfolding move
move-Inside g nothing s = s.inside
move-Inside g up s = (up-Within g.cur_pos.i g.height s.high s.inside.0, s.inside.1)
move-Inside g down s = (down-Within g.cur_pos.i g.height s.high s.inside.0, s.inside.1)
move-Inside g left s = (s.inside.0, down-Within g.cur_pos.j g.width s.wide s.inside.1)
move-Inside g right s = (s.inside.0, up-Within g.cur_pos.j g.width s.wide s.inside.1)
move-Inside g next s = through-Inside g.height g.width g.doors g.cur_pos g.cur_pos s.doors s.inside

step-IsSound : (g : GridEnvironment) (m : Movement) → IsSound g → IsSound (step g m)
unfolding step
step-IsSound g m s = record {
  high = s.high;
  wide = s.wide;
  doors = s.doors;
  inside = move-Inside g m s;
}

unfoldable pub walk : GridEnvironment → List Movement → GridEnvironment
walk g [] = g
walk g (m ∷ ms) = walk (step g m) ms

walk-IsSound : (g : GridEnvironment) (ms : List Movement) → IsSound g → IsSound (walk g ms)
unfolding walk
walk-IsSound g [] s = s
walk-IsSound g (m ∷ ms) s = walk-IsSound (step g m) ms (step-IsSound g m s)

origin-Within : (h : ℤ) → IsSize h → Within (pos 0) h
origin-Within (pos h) s = s.0
origin-Within (negsuc h) s = s

size-walk :
    (g : GridEnvironment) (ms : List Movement)
    → ((walk g ms).height ≡ g.height) × ((walk g ms).width ≡ g.width)
unfolding walk step
size-walk g [] = (refl, refl)
size-walk g (m ∷ ms) = size-walk (step g m) ms

-- The position after any walk from the start of a grid of positive sizes stays inside the grid, if
-- all its doors lead inside.
pub walk-Inside :
    (height width grids : ℤ) (doors : List Door) (ms : List Movement)
    → IsSize height
    → IsSize width
    → DoorsInside height width doors
    → Inside height width (walk (reset (new_grid height width grids doors)) ms).cur_pos
unfolding new_grid reset
walk-Inside height width grids doors ms h w d =
    let first : GridEnvironment = reset (new_grid height width grids doors) in
    let s : IsSound first = record {
      high = h;
      wide = w;
      doors = d;
      inside = (origin-Within height h, origin-Within width w);
    } in
    rw ((size-walk first ms).0, (size-walk first ms).1) at (walk-IsSound first ms s).inside

-- A movement down or left that has an effect.
abbrev pub Moves : GridEnvironment → Movement → Type 0
Moves g nothing = Unit
Moves g up = Unit
Moves g down = eqb_ℤ (move g down).i g.cur_pos.i ≡ false
Moves g left = eqb_ℤ (move g left).j g.cur_pos.j ≡ false
Moves g right = Unit
Moves g next = Unit

down-Moves :
    (x h : ℤ) → Within x h → eqb_ℤ x (pos 0) ≡ false → eqb_ℤ (max_ℤ (pos 0) (sub_one x)) x ≡ false
down-Moves (pos zero) h w e = ground arith
down-Moves (pos (suc a)) h w e = ground arith
down-Moves (negsuc a) h w e = ground arith

-- Inside a grid, no position offers a movement down or left that a wall would stop.
pub actions-Moves :
    (g : GridEnvironment) → Inside g.height g.width g.cur_pos → Every (Moves g) (actions g.cur_pos)
unfolding actions move
actions-Moves g v =
    if-cases (Every (Moves g)) (eqb_ℤ g.cur_pos.i (pos 0) && eqb_ℤ g.cur_pos.j (pos 0))
      (λ e. (tt, (tt, (tt, (tt, tt)))))
      (λ e.
        if-cases (Every (Moves g)) (eqb_ℤ g.cur_pos.i (pos 0))
          (λ i. (tt, (tt, (tt, (tt, (down-Moves g.cur_pos.j g.width v.1 (ground arith), tt))))))
          (λ i.
            if-cases (Every (Moves g)) (eqb_ℤ g.cur_pos.j (pos 0))
              (λ j. (tt, (tt, (tt, (tt, (down-Moves g.cur_pos.i g.height v.0 i, tt))))))
              (λ j. (
                tt,
                (
                  down-Moves g.cur_pos.i g.height v.0 i,
                  (down-Moves g.cur_pos.j g.width v.1 j, (tt, (tt, (tt, tt)))),
                ),
              ))))
