-- ===== src/Screener.antt =====
-- screener/evaluator.py: which symbols pass a formula.
pub mod Schema
pub mod Listed
pub mod Symbols
pub mod Passing
use trader_ai.Prelude.{
  ℕ, zero, suc, ◌+◌, ◌-◌, Bool, true, false, ◌&&◌, ◌||◌, not, Option, none, some, List, [], ◌∷◌,
  ◌++◌, length, get_elem?, if◌then◌else◌, ltb, leb, String, str_eq, pos,
}
use trader_ai.Prelude.Dict.{Dict, lookup}
use trader_ai.Float.{Float, nought, eq_f}
use trader_ai.Clock.{Datetime}
use trader_ai.Execution.Exceptions.{
  Kind, value_error, validation_error, other_exception, Exn, Outcome, returned, raised, exn, ◌>>=◌,
}
use trader_ai.Screener.Schema.{
  ComparisonOp, above, below, at_least, at_most, equal_to, CompareTo, IndicatorFilter, VolumeFilter,
  PriceChangeFilter, ScreenerFilter, indicator_filter, volume_filter, price_change_filter,
  ScreenerSideBias, ScreenerFormula, Threshold, number, times_average, ScreeningMatch,
  ScreeningResult, is_present,
}

-- a frame of candles: the timestamps, cells of type `R` as the frame holds them, and the other
-- columns by name
pub record Candles (F R : Type 0) : Type 0 where
  pub rows : ℕ
  pub timestamps : Option (List R)
  pub columns : Dict (List F)

-- an element counted from the end of a list; `iloc[-1]` is at 0
abbrev pub from_end : {A : Type 0} → List A → ℕ → Option A
from_end xs back = if ltb back (length xs) then get_elem? xs (length xs - 1 - back) else none

abbrev pub index_of : {A : Type 0} → Option A → Outcome A
index_of none = raised (exn other_exception)
index_of (some ts) = returned ts

abbrev pub timestamps_of : {A : Type 0} → Option (List A) → List A
timestamps_of none = []
timestamps_of (some ts) = ts

module _ {F R : Type 0} where
  -- `_symbol_is_evaluable`
  unfoldable pub symbol_is_evaluable : ℕ → Candles F R → Bool
  symbol_is_evaluable min_bars candles =
      not (ltb candles.rows min_bars)
      && is_present candles.timestamps
      && is_present (lookup "open" candles.columns)
      && is_present (lookup "high" candles.columns)
      && is_present (lookup "low" candles.columns)
      && is_present (lookup "close" candles.columns)
      && is_present (lookup "volume" candles.columns)

  -- a column of the frame, whose lack is a `KeyError`; it is there when a symbol is evaluated
  abbrev pub column : String → Candles F R → List F
  column name candles = elim (lookup name candles.columns) [ none ↦ [] | some xs ↦ xs ]

  -- `_last_timestamp`; `to_ist` is what pandas makes of the last cell: `pd.Timestamp`, then
  -- `tz_localize` or `tz_convert`, which may raise
  unfoldable pub last_timestamp : (R → Outcome Datetime) → Candles F R → Outcome Datetime
  last_timestamp to_ist candles =
      index_of (from_end (timestamps_of candles.timestamps) 0) >>= to_ist

module _ {F : Type 0} ⦃fl : Float F⦄ where
  open fl use {sub, mul, div, lt, le}

  -- `_compare`
  unfoldable pub compare : ComparisonOp → F → F → Bool
  compare above lhs rhs = lt rhs lhs
  compare below lhs rhs = lt lhs rhs
  compare at_least lhs rhs = le rhs lhs
  compare at_most lhs rhs = le lhs rhs
  compare equal_to lhs rhs = eq_f lhs rhs

  -- `math.isnan`
  abbrev pub is_nan : F → Bool
  is_nan x = not (le x x)

  abbrev pub match_if : Bool → ℕ → F → Threshold F → Option (ScreeningMatch F)
  match_if test filter_index value threshold =
      if test
      then some (record {
        filter_index = filter_index;
        value = value;
        threshold = threshold;
        passed = true;
      })
      else none

  -- `resolve_indicator_value` of the registry, and what pandas computes, the mean of the last
  -- elements and the timestamp in IST, are given
  module _ {R : Type 0} (resolve : String → Dict F → Candles F R → Outcome F)
      (rolling_mean : List F → ℕ → F) (to_ist : R → Outcome Datetime) where
    abbrev pub right_side : Option (CompareTo F) → Option F → Candles F R → Outcome F
    right_side (some c) value candles = resolve c.indicator c.params candles
    right_side none (some v) candles = returned v
    right_side none none candles = raised (exn value_error)

    unfoldable pub evaluate_indicator_filter :
        IndicatorFilter F → Candles F R → ℕ → Outcome (Option (ScreeningMatch F))
    unfolding compare
    evaluate_indicator_filter f candles filter_index = do
      lhs ← resolve f.indicator f.params candles
      rhs ← right_side f.compare_to f.value candles
      returned (match_if (compare f.op lhs rhs) filter_index lhs (number rhs))

    abbrev pub average_match : VolumeFilter F → F → F → F → ℕ → Option (ScreeningMatch F)
    average_match f last_volume mean times filter_index =
        if is_nan mean || eq_f mean nought
        then none
        else match_if (compare f.op last_volume (mul mean times)) filter_index last_volume
            (times_average times f.avg_window)

    abbrev pub volume_match :
        VolumeFilter F → List F → F → Option F → Option F → ℕ → Outcome (Option (ScreeningMatch F))
    volume_match f volumes last_volume (some times) value filter_index =
        if ltb (length volumes) f.avg_window
        then returned none
        else returned
            (average_match f last_volume (rolling_mean volumes f.avg_window) times filter_index)
    volume_match f volumes last_volume none (some v) filter_index =
        returned (match_if (compare f.op last_volume v) filter_index last_volume (number v))
    volume_match f volumes last_volume none none filter_index = raised (exn value_error)

    abbrev pub after_volume :
        VolumeFilter F → List F → Option F → ℕ → Outcome (Option (ScreeningMatch F))
    after_volume f volumes none filter_index = returned none
    after_volume f volumes (some last_volume) filter_index =
        if is_nan last_volume
        then returned none
        else volume_match f volumes last_volume f.value_x_avg f.value filter_index

    unfoldable pub evaluate_volume_filter :
        VolumeFilter F → Candles F R → ℕ → Outcome (Option (ScreeningMatch F))
    unfolding compare
    evaluate_volume_filter f candles filter_index =
        after_volume f (column "volume" candles) (from_end (column "volume" candles) 0) filter_index

    abbrev pub change_match : PriceChangeFilter F → F → F → ℕ → Option (ScreeningMatch F)
    change_match f current prior filter_index =
        let pct_change = mul (div (sub current prior) prior) (fl.decimal 100 0) in
        if is_nan current || is_nan prior || eq_f prior nought
        then none
        else match_if (compare f.op pct_change f.value_pct) filter_index pct_change
            (number f.value_pct)

    abbrev pub two_prices :
        PriceChangeFilter F → Option F → Option F → ℕ → Option (ScreeningMatch F)
    two_prices f (some current) (some prior) filter_index =
        change_match f current prior filter_index
    two_prices f _ _ filter_index = none

    unfoldable pub evaluate_price_change_filter :
        PriceChangeFilter F → Candles F R → ℕ → Outcome (Option (ScreeningMatch F))
    unfolding compare
    evaluate_price_change_filter f candles filter_index =
        let close = column "close" candles in
        if leb (length close) f.window
        then returned none
        else returned (two_prices f (from_end close 0) (from_end close f.window) filter_index)

    unfoldable pub evaluate_filter :
        ScreenerFilter F → Candles F R → ℕ → Outcome (Option (ScreeningMatch F))
    unfolding evaluate_indicator_filter evaluate_volume_filter evaluate_price_change_filter
    evaluate_filter (indicator_filter f) = evaluate_indicator_filter f
    evaluate_filter (volume_filter f) = evaluate_volume_filter f
    evaluate_filter (price_change_filter f) = evaluate_price_change_filter f

    abbrev pub is_value_error : Kind → Bool
    is_value_error value_error = true
    is_value_error validation_error = true
    is_value_error _ = false

    -- a filter whose value error is caught and taken for a filter that does not pass
    abbrev pub caught : Outcome (Option (ScreeningMatch F)) → Outcome (Option (ScreeningMatch F))
    caught (returned m) = returned m
    caught (raised e) = if is_value_error e.kind then returned none else raised e

    abbrev pub add_match :
        Option (ScreeningMatch F)
        → Outcome (Option (List (ScreeningMatch F)))
        → Outcome (Option (List (ScreeningMatch F)))
    add_match none rest = returned none
    add_match (some m) (raised e) = raised e
    add_match (some m) (returned none) = returned none
    add_match (some m) (returned (some ms)) = returned (some (m ∷ ms))

    abbrev pub after_match :
        Outcome (Option (ScreeningMatch F))
        → Outcome (Option (List (ScreeningMatch F)))
        → Outcome (Option (List (ScreeningMatch F)))
    after_match (raised e) rest = raised e
    after_match (returned m) rest = add_match m rest

    -- the loop of `_evaluate_symbol`; none is its early return
    unfoldable pub matches_from :
        Candles F R → ℕ → List (ScreenerFilter F) → Outcome (Option (List (ScreeningMatch F)))
    unfolding evaluate_filter
    matches_from candles idx [] = returned (some [])
    matches_from candles idx (f ∷ fs) =
        after_match (caught (evaluate_filter f candles idx)) (matches_from candles (idx + 1) fs)

    abbrev pub result_of :
        ScreenerFormula F
        → String
        → Candles F R
        → Option (List (ScreeningMatch F))
        → Outcome (Option (ScreeningResult F))
    result_of formula symbol candles none = returned none
    result_of formula symbol candles (some matches) = do
      ts ← last_timestamp to_ist candles
      returned (
          some (record {
            symbol = symbol;
            side_bias = formula.side_bias;
            matches = matches;
            bars_evaluated = candles.rows;
            last_bar_ts = ts;
          }))

    unfoldable pub evaluate_symbol :
        ScreenerFormula F → String → Candles F R → Outcome (Option (ScreeningResult F))
    unfolding matches_from last_timestamp
    evaluate_symbol formula symbol candles =
        matches_from candles 0 formula.filters >>= result_of formula symbol candles

    abbrev pub add_result :
        Option (ScreeningResult F) → List (ScreeningResult F) → List (ScreeningResult F)
    add_result none rest = rest
    add_result (some r) rest = r ∷ rest

    abbrev pub after_symbol :
        Outcome (Option (ScreeningResult F))
        → Outcome (List (ScreeningResult F))
        → Outcome (List (ScreeningResult F))
    after_symbol result rest = result >>= λ r. rest >>= λ rs. returned (add_result r rs)

    -- the loop of `evaluate`, over the symbols in sorted order with their candles
    unfoldable pub evaluate :
        ScreenerFormula F → ℕ → Dict (Candles F R) → Outcome (List (ScreeningResult F))
    unfolding evaluate_symbol symbol_is_evaluable
    evaluate formula min_bars [] = returned []
    evaluate formula min_bars ((symbol, candles) ∷ book) =
        let rest = evaluate formula min_bars book in
        if symbol_is_evaluable min_bars candles
        then after_symbol (evaluate_symbol formula symbol candles) rest
        else rest
