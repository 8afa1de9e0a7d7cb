-- ===== src/Screener/Schema.antt =====
-- screener/schema.py: a formula, its filters and the results.
use trader_ai.Prelude.{
  ℕ, Bool, true, false, ◌&&◌, ◌||◌, not, Option, none, some, List, leb, String, str_eq,
}
use trader_ai.Prelude.Dict.{Dict}
use trader_ai.Clock.{Datetime}

pub data ComparisonOp : Type 0 where
  above below at_least at_most equal_to : ComparisonOp

pub record CompareTo (F : Type 0) : Type 0 where
  pub indicator : String
  pub params : Dict F

pub record IndicatorFilter (F : Type 0) : Type 0 where
  pub indicator : String
  pub params : Dict F
  pub op : ComparisonOp
  pub value : Option F
  pub compare_to : Option (CompareTo F)

pub record VolumeFilter (F : Type 0) : Type 0 where
  pub op : ComparisonOp
  pub value : Option F
  pub value_x_avg : Option F
  pub avg_window : ℕ

pub record PriceChangeFilter (F : Type 0) : Type 0 where
  pub window : ℕ
  pub op : ComparisonOp
  pub value_pct : F

pub data ScreenerFilter (F : Type 0) : Type 0 where
  indicator_filter : IndicatorFilter F → ScreenerFilter F
  volume_filter : VolumeFilter F → ScreenerFilter F
  price_change_filter : PriceChangeFilter F → ScreenerFilter F

pub data ScreenerSideBias : Type 0 where
  long_bias short_bias both_biases : ScreenerSideBias

-- `name`, `timeframe` and `rationale` are not read by the evaluator
pub record ScreenerFormula (F : Type 0) : Type 0 where
  pub name : String
  pub side_bias : ScreenerSideBias
  pub filters : List (ScreenerFilter F)

-- a threshold is a number, or the text of a multiple of the average volume
pub data Threshold (F : Type 0) : Type 0 where
  number : F → Threshold F
  times_average : F → ℕ → Threshold F

pub record ScreeningMatch (F : Type 0) : Type 0 where
  pub filter_index : ℕ
  pub value : F
  pub threshold : Threshold F
  pub passed : Bool

pub record ScreeningResult (F : Type 0) : Type 0 where
  pub symbol : String
  pub side_bias : ScreenerSideBias
  pub matches : List (ScreeningMatch F)
  pub bars_evaluated : ℕ
  pub last_bar_ts : Datetime

abbrev pub is_present : {A : Type 0} → Option A → Bool
is_present none = false
is_present (some a) = true

module _ {F : Type 0} where
  -- `exactly_one_rhs`, and the non-empty names; `strip` is `str.strip`
  unfoldable pub indicator_filter_ok : (String → String) → IndicatorFilter F → Bool
  indicator_filter_ok strip f =
      not (str_eq (strip f.indicator) "")
      && ((is_present f.value && not (is_present f.compare_to))
          || (not (is_present f.value) && is_present f.compare_to))

  -- `exactly_one_form`
  unfoldable pub volume_filter_ok : VolumeFilter F → Bool
  volume_filter_ok f =
      leb 1 f.avg_window
      && ((is_present f.value && not (is_present f.value_x_avg))
          || (not (is_present f.value) && is_present f.value_x_avg))
