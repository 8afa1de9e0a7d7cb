-- ===== src/Screener/Passing.antt =====
-- Which symbols the screener lists.
use trader_ai.Prelude.{
  ℕ, suc, ◌≡◌, refl, sym, subst, ◌⊎◌, inl, inr, true, false, none, some, List, [], ◌∷◌, if_both,
  String,
}
use trader_ai.Prelude.Dict.{Dict}
use trader_ai.Float.{Float}
use trader_ai.Clock.{Datetime}
use trader_ai.Execution.Exceptions.{Exn, Outcome, returned, raised}
use trader_ai.Screener.Schema.{ScreenerFormula, ScreeningResult}
use trader_ai.Screener.{Candles, symbol_is_evaluable, after_symbol, evaluate}
use trader_ai.Screener.Listed.{AllMatch, Fails, Screens, Raises}
use trader_ai.Screener.Symbols.{IsResult, evaluate_symbol-IsResult}

module _ {F R : Type 0} ⦃fl : Float F⦄ (resolve : String → Dict F → Candles F R → Outcome F)
    (rolling_mean : List F → ℕ → F) (to_ist : R → Outcome Datetime) where
  later-Raises :
      (formula : ScreenerFormula F) (min_bars : ℕ) (x : String × Candles F R)
      (book : Dict (Candles F R)) (e : Exn)
      → Raises resolve rolling_mean to_ist formula min_bars book e
      → Raises resolve rolling_mean to_ist formula min_bars (x ∷ book) e
  later-Raises formula min_bars x book e (i, symbol, c, at, can, h) = (suc i, symbol, c, at, can, h)

  Ends : ScreenerFormula F → ℕ → Dict (Candles F R) → Outcome (List (ScreeningResult F)) → Type 0
  Ends formula min_bars book o =
      ((rs : List (ScreeningResult F)) × (o ≡ returned rs)
        × Screens resolve rolling_mean to_ist formula min_bars book rs)
      ⊎ ((e : Exn) × (o ≡ raised e) × Raises resolve rolling_mean to_ist formula min_bars book e)

  evaluate-Ends :
      (formula : ScreenerFormula F) (min_bars : ℕ) (book : Dict (Candles F R))
      → Ends formula min_bars book (evaluate resolve rolling_mean to_ist formula min_bars book)
  unfolding evaluate Ends IsResult
  evaluate-Ends formula min_bars [] = inl ([], refl, refl)
  evaluate-Ends formula min_bars ((symbol, c) ∷ book) =
      if_both (Ends formula min_bars ((symbol, c) ∷ book)) (symbol_is_evaluable min_bars c)
        (λ can. elim (evaluate_symbol-IsResult resolve rolling_mean to_ist formula symbol c) [
          | inl (r, e, named, all) ↦
              subst
                (λ o.
                  Ends formula min_bars ((symbol, c) ∷ book)
                    (after_symbol resolve rolling_mean to_ist o rest))
                (sym e) (listed can r named all rest (evaluate-Ends formula min_bars book))
          | inr (inl (e, fails)) ↦
              subst
                (λ o.
                  Ends formula min_bars ((symbol, c) ∷ book)
                    (after_symbol resolve rolling_mean to_ist o rest))
                (sym e) (dropped (inr fails) rest (evaluate-Ends formula min_bars book))
          | inr (inr (x, e, other)) ↦
              subst
                (λ o.
                  Ends formula min_bars ((symbol, c) ∷ book)
                    (after_symbol resolve rolling_mean to_ist o rest))
                (sym e) (inr (x, refl, (0, symbol, c, refl, can, other)))
        ])
        (λ cannot. passed_over (inl cannot) rest (evaluate-Ends formula min_bars book))
    where
      rest : Outcome (List (ScreeningResult F))
      rest = evaluate resolve rolling_mean to_ist formula min_bars book

      passed_over :
          (symbol_is_evaluable min_bars c ≡ false)
            ⊎ Fails resolve rolling_mean to_ist c 0 formula.filters
          → (o : Outcome (List (ScreeningResult F))) → Ends formula min_bars book o
          → Ends formula min_bars ((symbol, c) ∷ book) o
      passed_over why o (inl (rs, e, screens)) = inl (rs, e, inl (why, screens))
      passed_over why o (inr (x, e, bad)) =
          inr (x, e, later-Raises formula min_bars (symbol, c) book x bad)

      dropped :
          (symbol_is_evaluable min_bars c ≡ false)
            ⊎ Fails resolve rolling_mean to_ist c 0 formula.filters
          → (o : Outcome (List (ScreeningResult F))) → Ends formula min_bars book o
          → Ends formula min_bars
              ((symbol, c) ∷ book)
              (after_symbol resolve rolling_mean to_ist (returned none) o)
      dropped why o (inl (rs, e, screens)) =
          subst
            (λ x.
              Ends formula min_bars ((symbol, c) ∷ book)
                (after_symbol resolve rolling_mean to_ist (returned none) x))
            (sym e) (inl (rs, refl, inl (why, screens)))
      dropped why o (inr (x, e, other)) =
          subst
            (λ y.
              Ends formula min_bars ((symbol, c) ∷ book)
                (after_symbol resolve rolling_mean to_ist (returned none) y))
            (sym e) (inr (x, refl, later-Raises formula min_bars (symbol, c) book x other))

      listed :
          symbol_is_evaluable min_bars c ≡ true
          → (r : ScreeningResult F) → r.symbol ≡ symbol
          → AllMatch resolve rolling_mean to_ist c 0 formula.filters r.matches
          → (o : Outcome (List (ScreeningResult F))) → Ends formula min_bars book o
          → Ends formula min_bars
              ((symbol, c) ∷ book)
              (after_symbol resolve rolling_mean to_ist (returned (some r)) o)
      listed can r named all o (inl (rs, e, screens)) =
          subst
            (λ x.
              Ends formula min_bars ((symbol, c) ∷ book)
                (after_symbol resolve rolling_mean to_ist (returned (some r)) x))
            (sym e) (inl (r ∷ rs, refl, inr (r, rs, refl, can, named, all, screens)))
      listed can r named all o (inr (x, e, other)) =
          subst
            (λ y.
              Ends formula min_bars ((symbol, c) ∷ book)
                (after_symbol resolve rolling_mean to_ist (returned (some r)) y))
            (sym e) (inr (x, refl, later-Raises formula min_bars (symbol, c) book x other))

  -- The screener lists, in the order of the book, exactly the symbols that can be evaluated and for which every filter gives a match, each with its matches in the order of the filters; a symbol is left out because it cannot be evaluated, or because a filter does not pass or raises a value error. Or it raises, and the whole run ends: at a symbol that can be evaluated and one of whose filters raises an exception that is no value error, or all of whose filters match and whose last timestamp cannot be read.
  pub evaluate-Screens :
      (formula : ScreenerFormula F) (min_bars : ℕ) (book : Dict (Candles F R))
      → ((rs : List (ScreeningResult F)) × (evaluate resolve rolling_mean to_ist formula min_bars
              book
            ≡ returned rs)
          × Screens resolve rolling_mean to_ist formula min_bars book rs)
        ⊎ ((e : Exn) × (evaluate resolve rolling_mean to_ist formula min_bars book ≡ raised e)
            × Raises resolve rolling_mean to_ist formula min_bars book e)
  unfolding Ends
  evaluate-Screens formula min_bars book = evaluate-Ends formula min_bars book
