-- ===== src/Screener/Listed.antt =====
-- What it is for the screener to list a symbol, to leave it out and to fail.
use trader_ai.Prelude.{ℕ, ◌+◌, ◌≡◌, ◌⊎◌, true, false, none, some, List, [], ◌∷◌, get_elem?, String}
use trader_ai.Prelude.Dict.{Dict}
use trader_ai.Float.{Float}
use trader_ai.Clock.{Datetime}
use trader_ai.Execution.Exceptions.{Exn, Outcome, returned, raised}
use trader_ai.Screener.Schema.{ScreenerFilter, ScreenerFormula, ScreeningMatch, ScreeningResult}
use trader_ai.Screener.{
  Candles, symbol_is_evaluable, last_timestamp, evaluate_filter, is_value_error,
}

module _ {F R : Type 0} ⦃fl : Float F⦄ (resolve : String → Dict F → Candles F R → Outcome F)
    (rolling_mean : List F → ℕ → F) (to_ist : R → Outcome Datetime) where
  -- a match for each filter, in order
  abbrev pub AllMatch : Candles F R → ℕ → List (ScreenerFilter F) → List (ScreeningMatch F) → Type 0
  AllMatch c idx [] [] = Unit
  AllMatch c idx (f ∷ fs) (m ∷ ms) =
      (evaluate_filter resolve rolling_mean to_ist f c idx ≡ returned (some m))
      × AllMatch c (idx + 1) fs ms
  AllMatch c idx [] (m ∷ ms) = ⊥
  AllMatch c idx (f ∷ fs) [] = ⊥

  -- a filter that does not pass, or raises a value error
  abbrev pub FilterFails : Candles F R → ℕ → ScreenerFilter F → Type 0
  FilterFails c idx f =
      (evaluate_filter resolve rolling_mean to_ist f c idx ≡ returned none)
      ⊎ ((e : Exn) × (evaluate_filter resolve rolling_mean to_ist f c idx ≡ raised e)
          × (is_value_error resolve rolling_mean to_ist e.kind ≡ true))

  abbrev pub Fails : Candles F R → ℕ → List (ScreenerFilter F) → Type 0
  Fails c idx fs =
      (k : ℕ) × (f : ScreenerFilter F) × (get_elem? fs k ≡ some f) × FilterFails c (idx + k) f

  -- The symbols that are listed, in order: those that can be evaluated and pass every filter.
  abbrev pub Screens :
      ScreenerFormula F → ℕ → Dict (Candles F R) → List (ScreeningResult F) → Type 0
  Screens formula min_bars [] rs = rs ≡ []
  Screens formula min_bars ((symbol, c) ∷ book) rs =
      (((symbol_is_evaluable min_bars c ≡ false) ⊎ Fails c 0 formula.filters)
        × Screens formula min_bars book rs)
      ⊎ ((r : ScreeningResult F) × (rest : List (ScreeningResult F)) × (rs ≡ r ∷ rest)
          × (symbol_is_evaluable min_bars c ≡ true)
          × (r.symbol ≡ symbol)
          × AllMatch c 0 formula.filters r.matches
          × Screens formula min_bars book rest)

  abbrev pub IsOther : Exn → Type 0
  IsOther e = is_value_error resolve rolling_mean to_ist e.kind ≡ false

  -- a filter that raises an exception that is not taken for a filter that does not pass
  abbrev pub FilterRaises : Candles F R → ℕ → List (ScreenerFilter F) → Exn → Type 0
  FilterRaises c idx fs e =
      (k : ℕ) × (f : ScreenerFilter F) × (get_elem? fs k ≡ some f)
      × (evaluate_filter resolve rolling_mean to_ist f c (idx + k) ≡ raised e)
      × IsOther e

  -- why a symbol ends the run: one of its filters raises, or all of them match and its last
  -- timestamp cannot be read
  abbrev pub SymbolRaises : ScreenerFormula F → Candles F R → Exn → Type 0
  SymbolRaises formula c e =
      FilterRaises c 0 formula.filters e
      ⊎ ((ms : List (ScreeningMatch F)) × AllMatch c 0 formula.filters ms
          × (last_timestamp to_ist c ≡ raised e))

  abbrev pub Raises : ScreenerFormula F → ℕ → Dict (Candles F R) → Exn → Type 0
  Raises formula min_bars book e =
      (i : ℕ) × (symbol : String) × (c : Candles F R) × (get_elem? book i ≡ some (symbol, c))
      × (symbol_is_evaluable min_bars c ≡ true)
      × SymbolRaises formula c e
