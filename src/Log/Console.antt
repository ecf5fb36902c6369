-- ===== src/Log/Console.antt =====
-- Common/WrapLog.h: the colours of the log's lines on the console of Windows. The console is a
-- parameter of the code; its attributes are a WORD, of which the lowest four bits are blue, green, red
-- and the intensity of the text.
pub mod Colours
use dserver_framework.Log.{ThreadLog, cut}
use dserver_framework.Prelude.{ℕ, ◌+◌, ◌*◌, ◌/◌, ◌%◌, List, [], ◌∷◌, ◌++◌, ◌==◌, if◌then◌else◌}

pub data ConsoleAttribute : Type 0 where
  console_intense : ConsoleAttribute
  console_no_intense : ConsoleAttribute
  console_black : ConsoleAttribute
  console_white : ConsoleAttribute
  console_red : ConsoleAttribute
  console_green : ConsoleAttribute
  console_blue : ConsoleAttribute
  console_yellow : ConsoleAttribute
  console_magenta : ConsoleAttribute
  console_cyan : ConsoleAttribute

-- The values of the enumeration.
abbrev pub code : ConsoleAttribute → ℕ
code console_intense = 0
code console_no_intense = 1
code console_black = 2
code console_white = 3
code console_red = 4
code console_green = 5
code console_blue = 6
code console_yellow = 7
code console_magenta = 8
code console_cyan = 9

-- The levels of spdlog that the switch names.
pub record Levels : Type 0 where
  pub debug : ℕ
  pub info : ℕ
  pub warn : ℕ
  pub err : ℕ

-- The console's attributes, mCurrentColor, the calls of SetConsoleTextAttribute, newest first, and the
-- lines that were shown, the oldest first, each as the logger was given it and with the attributes
-- that it was shown in.
pub record Console : Type 0 where
  pub attributes : ℕ
  pub current_color : ConsoleAttribute
  pub calls : List ℕ
  pub shown : List (ThreadLog × ℕ)

-- word & FOREGROUND_INTENSITY
abbrev pub intensity : ℕ → ℕ
intensity word = word / 8 % 2 * 8

-- The switch of colorToWORD: FOREGROUND_BLUE is 1, FOREGROUND_GREEN 2 and FOREGROUND_RED 4.
abbrev pub foreground : ConsoleAttribute → ℕ → ℕ
foreground console_intense word = word
foreground console_no_intense word = word
foreground console_black word = 0
foreground console_white word = 4 + 2 + 1
foreground console_red word = 4
foreground console_green word = 2
foreground console_blue word = 1
foreground console_yellow word = 4 + 2
foreground console_magenta word = 4 + 1
foreground console_cyan word = 2 + 1

-- word | flag, for a flag of 0 or FOREGROUND_INTENSITY
abbrev pub or_intensity : ℕ → ℕ → ℕ
or_intensity word flag = if intensity word == 0 then word + flag else word

-- colorToWORD
unfoldable pub color_to_word : ConsoleAttribute → ℕ → ℕ
color_to_word ca attributes = or_intensity (foreground ca attributes) (intensity attributes)

-- setColor
unfoldable pub set_color : ConsoleAttribute → Console → Console
set_color ca c =
    let word = color_to_word ca c.attributes in
    if code ca == code c.current_color
    then c
    else record c { attributes = word; current_color = ca; calls = word ∷ c.calls }

-- WrapLog::WrapLog
unfoldable pub new_console : ℕ → Console
unfolding set_color
new_console attributes =
    set_color console_green
      (record { attributes = attributes; current_color = console_intense; calls = []; shown = [] })

module _ (levels : Levels) where
  -- The switch of outputConcole.
  unfoldable pub set_level_color : ℕ → Console → Console
  unfolding set_color
  set_level_color level c =
      if level == levels.debug
      then set_color console_cyan c
      else if level == levels.info
      then set_color console_green c
      else if level == levels.warn
      then set_color console_yellow c
      else if level == levels.err
      then set_color console_red c
      else c

  -- outputConcole, for a logger that does not throw
  unfoldable pub show_line : ThreadLog → Console → Console
  unfolding set_level_color
  show_line m c =
      let c' = set_level_color m.level c in
      record c' { shown = c'.shown ++ ((cut m, c'.attributes) ∷ []) }

  unfoldable pub show_lines : List ThreadLog → Console → Console
  unfolding show_line
  show_lines [] c = c
  show_lines (m ∷ ms) c = show_lines ms (show_line m c)
