-- ===== src/Risk/Windows.antt =====
-- risk/manager.py: the no-trade windows, and the kill switch.
pub mod Laws
use trader_ai.Prelude.{
  ℕ, Bool, true, false, ◌&&◌, ◌||◌, Option, none, some, List, [], ◌∷◌, if◌then◌else◌, leb, ◌==◌,
}
use trader_ai.Prelude.Options.{◌>>=◌}
use trader_ai.Text.{Text, codes, split, strip, text_eq}
use trader_ai.Clock.{Datetime, Time, time_of, two, parse_hhmm}

-- `none` for a ValueError
unfoldable pub parse_time_window : Text → Option (Time × Time)
unfolding split strip
parse_time_window window = do
  (first, second) ← two (split b'-' (strip window))
  start ← parse_hhmm (strip first)
  end ← parse_hhmm (strip second)
  some (start, end)

-- the test of one window, which may reach past midnight
unfoldable pub covers : Time × Time → Time → Bool
covers (start, end) current =
    if leb start end
    then leb start current && leb current end
    else leb start current || leb current end

in_windows : Time → List Text → Option Bool
in_windows current [] = some false
in_windows current (window ∷ windows) = do
  span ← parse_time_window window
  if covers span current then some true else in_windows current windows

-- A window is parsed when the loop reaches it, so a malformed one raises only if no window before it
-- covers the time.
unfoldable pub is_in_no_trade_window : Datetime → List Text → Option Bool
unfolding in_windows
is_in_no_trade_window ts windows = in_windows (time_of ts) windows

text_in : Text → List Text → Bool
unfolding text_eq
text_in s [] = false
text_in s (t ∷ ts) = text_eq s t || text_in s ts

-- What the kill switch is read from: whether the file is there, and the environment variable.
pub record KillSwitch : Type 0 where
  pub kill_file : Bool
  pub kill_env : Option Text

abbrev get_env : Option Text → Text
get_env none = codes "0"
get_env (some value) = value

unfoldable pub is_kill_switch_active : KillSwitch → Bool
unfolding text_in strip
is_kill_switch_active k =
    k.kill_file
    || text_in (strip (get_env k.kill_env))
        (codes "1" ∷ codes "true" ∷ codes "TRUE" ∷ codes "yes" ∷ codes "YES" ∷ [])
