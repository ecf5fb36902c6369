-- ===== src/Log/Console/Colours.antt =====
-- Each line is shown in the colour of its level.
use dserver_framework.Log.{ThreadLog, cut}
use dserver_framework.Log.Console.{
  ConsoleAttribute, console_cyan, console_green, console_yellow, console_red, Levels, Console,
  intensity,
}
use dserver_framework.Prelude.{ℕ, ◌+◌, ◌≡◌, List, [], ◌∷◌, length, ◌==◌, if◌then◌else◌, suc}

-- The colours of the levels, without the intensity: yellow for a warning and red for an error, green
-- for an information and cyan for a debugging line. A line of another level keeps the last colour.
abbrev pub color_after : Levels → ℕ → ℕ → ℕ
color_after levels last level =
    if level == levels.debug
    then 3
    else if level == levels.info
    then 2
    else if level == levels.warn
    then 6
    else if level == levels.err
    then 4
    else last

unfoldable pub colored : Levels → ℕ → ℕ → List ThreadLog → List (ThreadLog × ℕ)
colored levels flag last [] = []
colored levels flag last (m ∷ ms) =
    let now = color_after levels last m.level in (cut m, now + flag) ∷ colored levels flag now ms

-- How often the colour changes from one line to the next.
unfoldable pub changes : Levels → ℕ → List ThreadLog → ℕ
changes levels last [] = 0
changes levels last (m ∷ ms) =
    let now = color_after levels last m.level in
    let rest = changes levels now ms in if now == last then rest else suc rest

-- The console shows the colour of mCurrentColor, with the intensity it had at the start.
data IsColor : ConsoleAttribute → ℕ → Type 0 where
  is_cyan : IsColor console_cyan 3
  is_green : IsColor console_green 2
  is_yellow : IsColor console_yellow 6
  is_red : IsColor console_red 4

abbrev Shows : ℕ → ℕ → Console → Type 0
Shows flag last c = IsColor c.current_color last × (c.attributes ≡ last + flag)

-- What a switch to a colour, or none, has done.
abbrev Switched : ℕ → ℕ → ℕ → Console → Console → Type 0
Switched start last now c u =
    Shows (intensity start) now u
    × (u.shown ≡ c.shown)
    × (length u.calls ≡ (if now == last then length c.calls else suc (length c.calls)))
