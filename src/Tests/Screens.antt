-- ===== src/Tests/Screens.antt =====
-- A book of two symbols, screened by the change of the price.
use trader_ai.Prelude.{ℕ, ◌≡◌, ◌⊎◌, some, List, [], ◌∷◌, pos, String}
use trader_ai.Prelude.Dict.{Dict}
use trader_ai.Clock.{Datetime}
use trader_ai.Float.Fixed.{Fixed, fixed_float}
use trader_ai.Execution.Exceptions.{Exn, Outcome, returned, raised, exn, value_error}
use trader_ai.Screener.Schema.{
  ScreenerFormula, ScreeningResult, long_bias, price_change_filter, at_least,
}
use trader_ai.Screener.{Candles, evaluate}
use trader_ai.Screener.Listed.{Screens, Raises}
use trader_ai.Screener.Passing.{evaluate-Screens}
use trader_ai.Tests.Data.{rupees, morning}

abbrev candles : ℕ → ℕ → Candles Fixed Datetime
candles first last =
    let prices = rupees first ∷ rupees last ∷ [] in
    record {
      rows = 2;
      timestamps = some (morning ∷ morning ∷ []);
      columns =
          ("open", prices)
          ∷ ("high", prices)
          ∷ ("low", prices)
          ∷ ("close", prices)
          ∷ ("volume", prices)
          ∷ [];
    }

abbrev book : Dict (Candles Fixed Datetime)
book = ("INFY", candles 100 104) ∷ ("TCS", candles 100 101) ∷ []

-- a rise of two per cent over one bar
abbrev formula : ScreenerFormula Fixed
formula = record {
  name = "rising";
  side_bias = long_bias;
  filters = price_change_filter (record { window = 1; op = at_least; value_pct = rupees 2 }) ∷ [];
}

abbrev resolve : String → Dict Fixed → Candles Fixed Datetime → Outcome Fixed
resolve name params c = raised (exn value_error)

abbrev rolling_mean : List Fixed → ℕ → Fixed
rolling_mean xs n = pos 0

abbrev to_ist : Datetime → Outcome Datetime
to_ist t = returned t

evaluate-Screens_example :
    ((rs : List (ScreeningResult Fixed)) × (evaluate resolve rolling_mean to_ist formula 2 book
        ≡ returned rs)
      × Screens resolve rolling_mean to_ist formula 2 book rs)
    ⊎ ((e : Exn) × (evaluate resolve rolling_mean to_ist formula 2 book ≡ raised e)
        × Raises resolve rolling_mean to_ist formula 2 book e)
evaluate-Screens_example = evaluate-Screens resolve rolling_mean to_ist formula 2 book
