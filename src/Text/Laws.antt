-- ===== src/Text/Laws.antt =====
-- Splitting a text at a separator.
use trader_ai.Prelude.{ℕ, ◌≡◌, refl, ◌≢◌, [], ◌∷◌, ◌++◌, arith, none, some, pos}
use trader_ai.Text.{Text, split, to_int, codes}

-- No character of the text is the separator.
abbrev pub Free : ℕ → Text → Type 0
Free sep [] = Unit
Free sep (c ∷ cs) = (c ≢ sep) × Free sep cs

pub split-Free : (sep : ℕ) (s : Text) → Free sep s → split sep s ≡ s ∷ []
unfolding split
split-Free sep [] h = refl
split-Free sep (c ∷ cs) h = ground (arith, split-Free sep cs h.1)

-- Joining a piece with no separator to a text puts it in front of the pieces of the text.
pub split-append : (sep : ℕ) (s t : Text) → Free sep s → split sep (s ++ sep ∷ t) ≡ s ∷ split sep t
unfolding split
split-append sep [] t h = ground arith
split-append sep (c ∷ cs) t h = ground (arith, split-append sep cs t h.1)

to_int_padded : to_int (codes " 09 ") ≡ some (pos 9)
unfolding to_int
to_int_padded = refl

to_int_grouped : to_int (codes "1_0") ≡ some (pos 10)
unfolding to_int
to_int_grouped = refl

to_int_word : to_int (codes "9a") ≡ none
unfolding to_int
to_int_word = refl
