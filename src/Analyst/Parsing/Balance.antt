-- ===== src/Analyst/Parsing/Balance.antt =====
-- The balance of braces, and what one step of the scan does to it.
use trader_ai.Prelude.{
  ℕ, zero, suc, ◌+◌, ◌-◌, ◌≤◌, ◌==◌, ◌≡◌, ◌∙◌, ap, ◌⊎◌, false, not, ◌&&◌, none, some, [], ◌∷◌, ◌++◌,
  if◌then◌else◌, arith,
}
use trader_ai.Text.{Text}
use trader_ai.Analyst.Parsing.{Scan, scan_step, slice, closed_object, found_at}

-- outside a string, inside one, and inside one after a backslash
pub data Mode : Type 0 where
  plain quoted escaped : Mode

-- the depth of braces and the mode after a character
abbrev pub next_mode : ℕ → Mode → Mode
next_mode c escaped = quoted
next_mode c quoted = if c == b'\\' then escaped else if c == b'"' then plain else quoted
next_mode c plain = if c == b'"' then quoted else plain

abbrev pub next_depth : ℕ → ℕ → Mode → ℕ
next_depth c d plain = if c == b'{' then d + 1 else if c == b'}' then d - 1 else d
next_depth c d _ = d

-- a text whose braces bring the depth to zero at its end, outside a string, and not before
abbrev pub Closes : ℕ → Mode → Text → Type 0
Closes d m [] = (d ≡ 0) × (m ≡ plain)
Closes d m (c ∷ cs) = (1 ≤ d) × Closes (next_depth c d m) (next_mode c m) cs

-- a part of the text that is an opening brace with what closes it
abbrev pub IsObjectIn : Text → Text → Type 0
IsObjectIn text found =
    (before : Text) × (body : Text) × (after : Text) × (found ≡ b'{' ∷ body)
    × (text ≡ before ++ (found ++ after))
    × Closes 1 plain body

unfoldable pub mode_of : Scan → Mode
mode_of s = if s.in_string then (if s.escape then escaped else quoted) else plain

pub scan_step-mode :
    (ch i : ℕ) (s : Scan)
    → (s.in_string ≡ false → s.escape ≡ false)
    → mode_of (scan_step ch i s) ≡ next_mode ch (mode_of s)
unfolding mode_of
scan_step-mode ch i s q = ground (arith, q)

pub scan_step-depth :
    (ch i : ℕ) (s : Scan) → (scan_step ch i s).depth ≡ next_depth ch s.depth (mode_of s)
unfolding mode_of
scan_step-depth ch i s = ground arith

pub scan_step-quiet :
    (ch i : ℕ) (s : Scan)
    → (s.in_string ≡ false → s.escape ≡ false)
    → (scan_step ch i s).in_string ≡ false
    → (scan_step ch i s).escape ≡ false
scan_step-quiet ch i s q h = ground (arith, q, h)

-- at depth zero a step stays there, or opens an object
pub scan_step-outside :
    (ch i : ℕ) (s : Scan)
    → s.depth ≡ 0
    → ((scan_step ch i s).depth ≡ 0)
      ⊎ ((ch ≡ b'{')
          × ((scan_step ch i s).depth ≡ 1)
          × ((scan_step ch i s).start ≡ some i)
          × (mode_of (scan_step ch i s) ≡ plain))
unfolding mode_of
scan_step-outside ch i s h = ground (arith, h)

-- inside an object a step stays there with its start, or closes it
pub scan_step-inside :
    (ch i d : ℕ) (s : Scan) → s.depth ≡ suc d → (scan_step ch i s).start ≡ s.start
scan_step-inside ch i d s h = ground (arith, h)

-- a closing brace at depth one finds the object
found_at-closed :
    (text : Text) (ch i k : ℕ) (s : Scan)
    → s.depth ≡ 1
    → s.start ≡ some k
    → found_at text ch i s ≡ (if not s.in_string && ch == b'}' then some (slice text k i) else none)
found_at-closed text ch i k s h e =
    ap (λ d. if not s.in_string && ch == b'}' then closed_object text i d s.start else none) h
    ∙ ap (λ o. if not s.in_string && ch == b'}' then closed_object text i 1 o else none) e

found_at-deep :
    (text : Text) (ch i d : ℕ) (s : Scan) → s.depth ≡ suc (suc d) → found_at text ch i s ≡ none
found_at-deep text ch i d s h =
    ap (λ e. if not s.in_string && ch == b'}' then closed_object text i e s.start else none) h
    ∙ ground arith

pub found_at-outside :
    (text : Text) (ch i : ℕ) (s : Scan) → s.depth ≡ 0 → found_at text ch i s ≡ none
found_at-outside text ch i s h =
    ap (λ e. if not s.in_string && ch == b'}' then closed_object text i e s.start else none) h
    ∙ ground arith

pub stays_inside :
    (text : Text) (ch i d k : ℕ) (s : Scan)
    → s.depth ≡ suc d
    → s.start ≡ some k
    → found_at text ch i s ≡ none
    → 1 ≤ (scan_step ch i s).depth
stays_inside text ch i zero k s h e n = ground (arith, h, n, found_at-closed text ch i k s h e)
stays_inside text ch i (suc d) k s h e n = ground (arith, h)

-- the object that is found at a closing brace
pub found_inside :
    (text : Text) (ch i d k : ℕ) (s : Scan) (found : Text)
    → s.depth ≡ suc d
    → s.start ≡ some k
    → found_at text ch i s ≡ some found
    → (d ≡ 0) × (ch ≡ b'}') × (mode_of s ≡ plain) × (found ≡ slice text k i)
unfolding mode_of
found_inside text ch i zero k s found h e n =
    ground (arith, h, n, found_at-closed text ch i k s h e)
found_inside text ch i (suc d) k s found h e n = ground (arith, n, found_at-deep text ch i d s h)
