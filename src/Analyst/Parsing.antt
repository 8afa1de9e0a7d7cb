-- ===== src/Analyst/Parsing.antt =====
-- analyst/_parsing.py: the JSON object in the answer of a language model.
pub mod Balance
pub mod Objects
use trader_ai.Prelude.{
  ℕ, zero, suc, ◌+◌, ◌-◌, ◌==◌, Bool, true, false, ◌&&◌, not, Option, none, some, List, [], ◌∷◌,
  ◌++◌, if◌then◌else◌, take, drop,
}
use trader_ai.Text.{Text, codes, text_eq, strip, split}
use trader_ai.Execution.Exceptions.{Outcome, returned, raised, value_error}

-- `"\n".join(lines)`
unfoldable pub join_lines : List Text → Text
join_lines [] = []
join_lines (l ∷ []) = l
join_lines (l ∷ m ∷ ls) = l ++ b'\n' ∷ join_lines (m ∷ ls)

-- `text.startswith(prefix)`
unfoldable pub startswith : Text → Text → Bool
startswith text [] = true
startswith [] (p ∷ ps) = false
startswith (c ∷ cs) (p ∷ ps) = c == p && startswith cs ps

-- `text.endswith("}")`
unfoldable pub ends_with_brace : Text → Bool
ends_with_brace [] = false
ends_with_brace (c ∷ []) = c == b'}'
ends_with_brace (c ∷ d ∷ cs) = ends_with_brace (d ∷ cs)

-- the body without a last line that is a fence
unfoldable pub drop_fence : List Text → List Text
drop_fence [] = []
drop_fence (l ∷ []) = if text_eq (strip l) (codes "```") then [] else l ∷ []
drop_fence (l ∷ m ∷ ls) = l ∷ drop_fence (m ∷ ls)

abbrev pub tail : List Text → List Text
tail [] = []
tail (l ∷ ls) = ls

unfoldable pub strip_code_fences : Text → Text
unfolding drop_fence join_lines
strip_code_fences text =
    if startswith text (codes "```")
    then strip (join_lines (drop_fence (tail (split b'\n' text))))
    else text

-- the local variables of the scan; `none` is a start of -1
pub record Scan : Type 0 where
  pub depth : ℕ
  pub start : Option ℕ
  pub in_string : Bool
  pub escape : Bool

-- a character inside a string
abbrev pub string_step : ℕ → Scan → Scan
string_step ch s =
    if s.escape
    then record s { escape = false }
    else if ch == b'\\'
    then record s { escape = true }
    else if ch == b'"'
    then record s { in_string = false }
    else s

-- `text[start : i + 1]`
abbrev pub slice : Text → ℕ → ℕ → Text
slice text start i = take (i + 1 - start) (drop start text)

-- an opening brace
abbrev pub open_step : ℕ → Scan → Scan
open_step i s = record s { depth = s.depth + 1; start = if s.depth == 0 then some i else s.start }

abbrev pub close_step : Scan → Scan
close_step s = record s { depth = s.depth - 1 }

-- the object that a closing brace ends, if it is an outermost one
abbrev pub closed_object : Text → ℕ → ℕ → Option ℕ → Option Text
closed_object text i (suc zero) (some start) = some (slice text start i)
closed_object text i _ _ = none

abbrev pub scan_step : ℕ → ℕ → Scan → Scan
scan_step ch i s =
    if s.in_string
    then string_step ch s
    else if ch == b'"'
    then record s { in_string = true }
    else if ch == b'{'
    then open_step i s
    else if ch == b'}'
    then close_step s
    else s

abbrev pub found_at : Text → ℕ → ℕ → Scan → Option Text
found_at text ch i s =
    if not s.in_string && ch == b'}' then closed_object text i s.depth s.start else none

-- the loop of `_find_first_balanced_object`
unfoldable pub find_from : Text → ℕ → Scan → Text → Option Text
find_from text i s [] = none
find_from text i s (ch ∷ rest) =
    let later = find_from text (i + 1) (scan_step ch i s) rest in
    elim (found_at text ch i s) [ none ↦ later | some found ↦ some found ]

unfoldable pub find_first_balanced_object : Text → Option Text
find_first_balanced_object text =
    find_from text 0 (record { depth = 0; start = none; in_string = false; escape = false }) text

-- the text without a fence around it
abbrev pub unfenced : Text → Text
unfenced text =
    let fenced = strip_code_fences text in
    if startswith text (codes "```") && (not (text_eq fenced []) && not (text_eq fenced text))
    then fenced
    else text

abbrev pub found_or_raise : Option Text → Outcome Text
found_or_raise none = raised (record { kind = value_error; message = "" })
found_or_raise (some found) = returned found

abbrev pub object_in : Text → Outcome Text
object_in text =
    if startswith text (codes "{") && ends_with_brace text
    then returned text
    else found_or_raise (find_first_balanced_object text)

unfoldable pub extract_json_object : Text → Outcome Text
unfolding find_first_balanced_object strip_code_fences
extract_json_object raw =
    let text = strip raw in
    if text_eq text []
    then raised (record { kind = value_error; message = "" })
    else object_in (unfenced text)
