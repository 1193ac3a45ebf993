-- ===== src/LogLevels.antt =====
-- station/frame/core/logger/level.go: the levels of the logger and their names. A level is an int8;
-- those that have no name are among them.
pub mod Names
use peers_touch_go.Prelude.{
  ℕ, ◌==◌, Bool, true, false, List, [], ◌∷◌, Option, none, some, Str, codes, str_eq, leb,
  if◌then◌else◌, ◌≡◌,
}
use peers_touch_go.Prelude.Int.{ℤ, pos, negsuc}
use peers_touch_go.Prelude.Result.{Result, ok, err}

abbrev pub trace_level : ℤ
trace_level = negsuc 1

abbrev pub debug_level : ℤ
debug_level = negsuc 0

abbrev pub info_level : ℤ
info_level = pos 0

abbrev pub warn_level : ℤ
warn_level = pos 1

abbrev pub error_level : ℤ
error_level = pos 2

abbrev pub fatal_level : ℤ
fatal_level = pos 3

-- Equality of two levels.
abbrev pub same : ℤ → ℤ → Bool
same (pos a) (pos b) = a == b
same (negsuc a) (negsuc b) = a == b
same _ _ = false

unfoldable pub to_text : ℤ → Str
to_text l =
    if same l trace_level
    then codes "trace"
    else if same l debug_level
    then codes "debug"
    else if same l info_level
    then codes "info"
    else if same l warn_level
    then codes "warn"
    else if same l error_level
    then codes "error"
    else if same l fatal_level
    then codes "fatal"
    else []

-- `a >= b`
abbrev pub at_least : ℤ → ℤ → Bool
at_least (pos a) (pos b) = leb b a
at_least (pos a) (negsuc b) = true
at_least (negsuc a) (pos b) = false
at_least (negsuc a) (negsuc b) = leb a b

abbrev pub enabled : ℤ → ℤ → Bool
enabled l other = at_least other l

-- The level, and whether the text is one's name.
unfoldable pub get_level : Str → ℤ × Bool
unfolding to_text str_eq
get_level s =
    if str_eq s (to_text trace_level)
    then (trace_level, true)
    else if str_eq s (to_text debug_level)
    then (debug_level, true)
    else if str_eq s (to_text info_level)
    then (info_level, true)
    else if str_eq s (to_text warn_level)
    then (warn_level, true)
    else if str_eq s (to_text error_level)
    then (error_level, true)
    else if str_eq s (to_text fatal_level)
    then (fatal_level, true)
    else (info_level, false)
