-- ===== src/Grid.antt =====
-- grid/: the grid world that the policies are tried on. `World` has the environment, `Bounds` shows
-- that a walk stays inside.
pub mod World
pub mod Bounds
