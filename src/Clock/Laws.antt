-- ===== src/Clock/Laws.antt =====
-- What the parser of times returns.
use trader_ai.Prelude.{◌+◌, ◌*◌, ◌<◌, ◌≡◌, refl, some, ℤ, pos, negsuc, arith}
use trader_ai.Prelude.Options.{>>=-eq-some}
use trader_ai.Text.{Text, codes, split, to_int}
use trader_ai.Clock.{Time, parse_hhmm, minute, day, make_time, two}

make_time-lt : (h m : ℤ) {t : Time} → make_time h m ≡ some t → t < day
make_time-lt (pos h) (pos m) e = ground arith
make_time-lt (pos h) (negsuc m) e = cc
make_time-lt (negsuc h) m e = cc

-- A time that was parsed lies within a day.
pub parse_hhmm-lt : (value : Text) {t : Time} → parse_hhmm value ≡ some t → t < day
unfolding parse_hhmm
parse_hhmm-lt value e =
    let (pieces, _, e₁) = >>=-eq-some (two (split b':' value)) _ e in
    let (h, _, e₂) = >>=-eq-some (to_int pieces.0) _ e₁ in
    let (m, _, e₃) = >>=-eq-some (to_int pieces.1) _ e₂ in make_time-lt h m e₃

test : parse_hhmm (codes "14:30") ≡ some ((14 * 60 + 30) * minute)
unfolding parse_hhmm
test = refl
