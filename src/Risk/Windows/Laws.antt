-- ===== src/Risk/Windows/Laws.antt =====
-- What the no-trade windows mean: arcs of the day's circle.
use trader_ai.Prelude.{
  ◌+◌, ◌-◌, ◌%◌, ◌≤◌, ◌<◌, ◌≡◌, refl, ◌↔◌, ◌⊎◌, inl, inr, Bool, true, false, some, List, [], ◌∷◌,
  arith, Bool-cases,
}
use trader_ai.Text.{Text, split, strip}
use trader_ai.Clock.{Datetime, Time, time_of, day, two, parse_hhmm}
use trader_ai.Clock.Laws.{parse_hhmm-lt}
use mathlib.Core.Option.{some-injective}
use trader_ai.Prelude.Options.{>>=-eq-some}
use trader_ai.Risk.Windows.{parse_time_window, covers, in_windows, is_in_no_trade_window}

-- The time lies on the arc that runs forwards from the start to the end of the window.
abbrev pub OnArc : Time × Time → Time → Type 0
OnArc (start, end) t = (t + day - start) % day ≤ (end + day - start) % day

pub covers-OnArc :
    (w : Time × Time) (t : Time) → w.0 < day → w.1 < day → t < day → (covers w t ≡ true) ↔ OnArc w t
unfolding covers
covers-OnArc (s, e) t hs he ht = ground arith

-- The windows read as the given spans, one by one.
abbrev pub Reads : List Text → List (Time × Time) → Type 0
Reads [] [] = Unit {0}
Reads (w ∷ ws) (a ∷ spans) = (parse_time_window w ≡ some a) × Reads ws spans
Reads _ _ = ⊥

abbrev pub AnyArc : List (Time × Time) → Time → Type 0
AnyArc [] t = ⊥
AnyArc (w ∷ ws) t = OnArc w t ⊎ AnyArc ws t

parse_time_window-lt :
    (w : Text) {a : Time × Time} → parse_time_window w ≡ some a → (a.0 < day) × (a.1 < day)
unfolding parse_time_window
parse_time_window-lt w e =
    let (pieces, _, e₁) = >>=-eq-some (two (split b'-' (strip w))) _ e in
    let (start, p, e₂) = >>=-eq-some (parse_hhmm (strip pieces.0)) _ e₁ in
    let (end, q, e₃) = >>=-eq-some (parse_hhmm (strip pieces.1)) _ e₂ in
    rw (← some-injective _ _ e₃)
      (parse_hhmm-lt (strip pieces.0) p, parse_hhmm-lt (strip pieces.1) q)

in_windows_iff :
    (t : Time) (ws : List Text) (spans : List (Time × Time))
    → Reads ws spans
    → t < day
    → (b : Bool) × (in_windows t ws ≡ some b) × ((b ≡ true) ↔ AnyArc spans t)
unfolding in_windows
in_windows_iff t [] [] h ht = (false, refl, ground arith)
in_windows_iff t [] (a ∷ spans) h ht = elim h [ ]
in_windows_iff t (w ∷ ws) [] h ht = elim h [ ]
in_windows_iff t (w ∷ ws) (a ∷ spans) (p, h) ht =
    let (b, ih, iff) = in_windows_iff t ws spans h ht in
    let (s, e) = parse_time_window-lt w p in
    let arc = covers-OnArc a t s e ht in
    elim (Bool-cases (covers a t)) [
      | inl covered ↦ (true, rw (p, covered), (λ _. inl (arc.0 covered), λ _. refl))
      | inr out ↦ (
        b,
        rw (p, out) ih,
        (λ q. inr (iff.0 q), λ o. elim o [ inl on ↦ cc (arc.1 on) | inr rest ↦ iff.1 rest ]),
      )
    ]

-- If the windows read as the given spans, the check answers, and it answers true exactly when the
-- time of day lies on the arc of some span, from its start forwards to its end, past midnight if
-- need be, both ends included.
pub is_in_no_trade_window_iff :
    (ts : Datetime) (windows : List Text) (spans : List (Time × Time))
    → Reads windows spans
    → (b : Bool) × (is_in_no_trade_window ts windows ≡ some b)
      × ((b ≡ true) ↔ AnyArc spans (time_of ts))
unfolding is_in_no_trade_window
is_in_no_trade_window_iff ts windows spans h =
    in_windows_iff (time_of ts) windows spans h (omega arith)
