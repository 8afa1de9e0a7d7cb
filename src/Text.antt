-- ===== src/Text.antt =====
-- Texts as lists of code points, with the methods of Python's `str` and the conversion `int(text)`
-- that the parsers of times use. The model covers ASCII.
pub mod Laws
use Prim.Native.Char.{code}
use trader_ai.Prelude.{
  ℕ, zero, suc, ◌+◌, ◌-◌, ◌*◌, Bool, true, false, ◌&&◌, ◌||◌, Option, none, some, List, [], ◌∷◌,
  ◌++◌, if◌then◌else◌, leb, ◌==◌, ℤ, pos, ◌-ℤ◌, String,
}
use mathlib.Core.List.{reverse}

abbrev pub Text : Type 0
Text = List ℕ

abbrev pub codes : String → Text
codes String.[] = []
codes (String.◌∷◌ c s) = code c ∷ codes s

-- `==` on texts
unfoldable pub text_eq : Text → Text → Bool
text_eq [] [] = true
text_eq (a ∷ s) (b ∷ t) = a == b && text_eq s t
text_eq s t = false

unfoldable pub is_space : ℕ → Bool
is_space c = c == 32 || (leb 9 c && leb c 13) || (leb 28 c && leb c 31)

unfoldable pub lstrip : Text → Text
unfolding is_space
lstrip [] = []
lstrip (c ∷ cs) = elim (is_space c) [ true ↦ lstrip cs | false ↦ c ∷ cs ]

-- `text.strip()`
unfoldable pub strip : Text → Text
unfolding lstrip
strip s = reverse (lstrip (reverse (lstrip s)))

abbrev cons_head : ℕ → List Text → List Text
cons_head c [] = (c ∷ []) ∷ []
cons_head c (w ∷ ws) = (c ∷ w) ∷ ws

-- `text.split(sep)` at a separator of one character
unfoldable pub split : ℕ → Text → List Text
split sep [] = [] ∷ []
split sep (c ∷ cs) = let rest = split sep cs in if c == sep then [] ∷ rest else cons_head c rest

unfoldable pub is_digit : ℕ → Bool
is_digit c = leb b'0' c && leb c b'9'

-- The digits of `int(text)`, after the first one: single underscores may stand between digits.
unfoldable pub digits_from : ℕ → Text → Option ℕ
unfolding is_digit
digits_from acc [] = some acc
digits_from acc (c ∷ []) = if is_digit c then some (acc * 10 + (c - b'0')) else none
digits_from acc (c ∷ d ∷ cs) =
    let plain = digits_from (acc * 10 + (c - b'0')) (d ∷ cs) in
    let grouped = digits_from (acc * 10 + (d - b'0')) cs in
    if is_digit c then plain else if c == b'_' && is_digit d then grouped else none

unfoldable pub unsigned : Text → Option ℕ
unfolding digits_from
unsigned [] = none
unsigned (c ∷ cs) = if is_digit c then digits_from (c - b'0') cs else none

unfoldable pub signed : Text → Option ℤ
unfolding unsigned ◌-ℤ◌
signed [] = none
signed (c ∷ cs) =
    if c == b'-'
    then elim (unsigned cs) [ none ↦ none | some n ↦ some (pos 0 -ℤ pos n) ]
    else elim (unsigned (if c == b'+' then cs else c ∷ cs)) [ none ↦ none | some n ↦ some (pos n) ]

-- `int(text)`, with `none` for its `ValueError`
unfoldable pub to_int : Text → Option ℤ
unfolding signed strip
to_int s = signed (strip s)
