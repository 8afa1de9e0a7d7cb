-- ===== src/Screener/Symbols.antt =====
-- One symbol: its filters in order, and what comes of it.
use trader_ai.Prelude.{
  ℕ, suc, ◌+◌, ◌≡◌, refl, sym, ap, subst, ◌⊎◌, inl, inr, Option, none, some, List, [], ◌∷◌,
  if◌then◌else◌, Bool-cases, String, arith,
}
use trader_ai.Prelude.Dict.{Dict}
use trader_ai.Float.{Float}
use trader_ai.Clock.{Datetime}
use trader_ai.Execution.Exceptions.{Exn, Outcome, returned, raised, ◌>>=◌}
use trader_ai.Screener.Schema.{ScreenerFilter, ScreenerFormula, ScreeningMatch, ScreeningResult}
use trader_ai.Screener.{
  Candles, last_timestamp, evaluate_filter, is_value_error, caught, add_match, after_match,
  matches_from, result_of, evaluate_symbol,
}
use trader_ai.Screener.Listed.{AllMatch, FilterFails, Fails, IsOther, FilterRaises, SymbolRaises}

module _ {F R : Type 0} ⦃fl : Float F⦄ (resolve : String → Dict F → Candles F R → Outcome F)
    (rolling_mean : List F → ℕ → F) (to_ist : R → Outcome Datetime) where
  caught-cases :
      (c : Candles F R) (idx : ℕ) (f : ScreenerFilter F) (o : Outcome (Option (ScreeningMatch F)))
      → evaluate_filter resolve rolling_mean to_ist f c idx ≡ o
      → ((m : ScreeningMatch F) × (o ≡ returned (some m))
          × (caught resolve rolling_mean to_ist o ≡ returned (some m)))
        ⊎ (FilterFails resolve rolling_mean to_ist c idx f
            × (caught resolve rolling_mean to_ist o ≡ returned none))
        ⊎ ((e : Exn) × (caught resolve rolling_mean to_ist o ≡ raised e)
            × (evaluate_filter resolve rolling_mean to_ist f c idx ≡ raised e)
            × IsOther resolve rolling_mean to_ist e)
  caught-cases c idx f (returned (some m)) h = inl (m, refl, refl)
  caught-cases c idx f (returned none) h = inr (inl (inl h, refl))
  caught-cases c idx f (raised e) h =
      elim (Bool-cases (is_value_error resolve rolling_mean to_ist e.kind)) [
        | inl t ↦ inr (inl (inr (e, h, t), ap (λ b. if b then returned none else raised e) t))
        | inr t ↦ inr (inr (e, ap (λ b. if b then returned none else raised e) t, h, t))
      ]

  -- the end of the loop over the filters
  MatchEnds :
      Candles F R
      → ℕ
      → List (ScreenerFilter F)
      → Outcome (Option (List (ScreeningMatch F)))
      → Type 0
  MatchEnds c idx fs o =
      ((ms : List (ScreeningMatch F)) × (o ≡ returned (some ms))
        × AllMatch resolve rolling_mean to_ist c idx fs ms)
      ⊎ ((o ≡ returned none) × Fails resolve rolling_mean to_ist c idx fs)
      ⊎ ((e : Exn) × (o ≡ raised e) × FilterRaises resolve rolling_mean to_ist c idx fs e)

  later-Fails :
      (c : Candles F R) (idx : ℕ) (f : ScreenerFilter F) (fs : List (ScreenerFilter F))
      → Fails resolve rolling_mean to_ist c (idx + 1) fs
      → Fails resolve rolling_mean to_ist c idx (f ∷ fs)
  later-Fails c idx f fs (k, g, at, h) =
      (suc k, g, at, subst (λ i. FilterFails resolve rolling_mean to_ist c i g) (omega arith) h)

  later-FilterRaises :
      (c : Candles F R) (idx : ℕ) (f : ScreenerFilter F) (fs : List (ScreenerFilter F)) (e : Exn)
      → FilterRaises resolve rolling_mean to_ist c (idx + 1) fs e
      → FilterRaises resolve rolling_mean to_ist c idx (f ∷ fs) e
  later-FilterRaises c idx f fs e (k, g, at, h, other) = (
    suc k,
    g,
    at,
    subst (λ i. evaluate_filter resolve rolling_mean to_ist g c i ≡ raised e) (omega arith) h,
    other,
  )

  matches_from-MatchEnds :
      (c : Candles F R) (idx : ℕ) (fs : List (ScreenerFilter F))
      → MatchEnds c idx fs (matches_from resolve rolling_mean to_ist c idx fs)
  unfolding matches_from MatchEnds
  matches_from-MatchEnds c idx [] = inl ([], refl, tt)
  matches_from-MatchEnds c idx (f ∷ fs) = elim (caught-cases c idx f _ refl) [
    | inl (m, q, e) ↦
        subst (λ o. MatchEnds c idx (f ∷ fs) (after_match resolve rolling_mean to_ist o later))
          (sym e) (joined m q later (matches_from-MatchEnds c (idx + 1) fs))
    | inr (inl (fails, e)) ↦
        subst (λ o. MatchEnds c idx (f ∷ fs) (after_match resolve rolling_mean to_ist o later))
          (sym e)
          (inr (
            inl (
              refl,
              (
                0,
                f,
                refl,
                subst (λ i. FilterFails resolve rolling_mean to_ist c i f) (omega arith) fails,
              ),
            )))
    | inr (inr (x, e, h, other)) ↦
        subst (λ o. MatchEnds c idx (f ∷ fs) (after_match resolve rolling_mean to_ist o later))
          (sym e)
          (inr (
            inr (
              x,
              refl,
              (
                0,
                f,
                refl,
                subst (λ i. evaluate_filter resolve rolling_mean to_ist f c i ≡ raised x)
                    (omega arith) h,
                other,
              ),
            )))
  ]
    where
      later : Outcome (Option (List (ScreeningMatch F)))
      later = matches_from resolve rolling_mean to_ist c (idx + 1) fs

      joined :
          (m : ScreeningMatch F)
          → evaluate_filter resolve rolling_mean to_ist f c idx ≡ returned (some m)
          → (o : Outcome (Option (List (ScreeningMatch F)))) → MatchEnds c (idx + 1) fs o
          → MatchEnds c idx (f ∷ fs) (add_match resolve rolling_mean to_ist (some m) o)
      joined m q o (inl (ms, e, all)) =
          subst (λ x. MatchEnds c idx (f ∷ fs) (add_match resolve rolling_mean to_ist (some m) x))
            (sym e) (inl (m ∷ ms, refl, (q, all)))
      joined m q o (inr (inl (e, fails))) =
          subst (λ x. MatchEnds c idx (f ∷ fs) (add_match resolve rolling_mean to_ist (some m) x))
            (sym e) (inr (inl (refl, later-Fails c idx f fs fails)))
      joined m q o (inr (inr (x, e, other))) =
          subst (λ y. MatchEnds c idx (f ∷ fs) (add_match resolve rolling_mean to_ist (some m) y))
            (sym e) (inr (inr (x, refl, later-FilterRaises c idx f fs x other)))

  -- a result of a symbol
  unfoldable pub IsResult :
      ScreenerFormula F → String → Candles F R → Outcome (Option (ScreeningResult F)) → Type 0
  IsResult formula symbol c o =
      ((r : ScreeningResult F) × (o ≡ returned (some r))
        × (r.symbol ≡ symbol)
        × AllMatch resolve rolling_mean to_ist c 0 formula.filters r.matches)
      ⊎ ((o ≡ returned none) × Fails resolve rolling_mean to_ist c 0 formula.filters)
      ⊎ ((e : Exn) × (o ≡ raised e) × SymbolRaises resolve rolling_mean to_ist formula c e)

  pub evaluate_symbol-IsResult :
      (formula : ScreenerFormula F) (symbol : String) (c : Candles F R)
      → IsResult formula symbol c (evaluate_symbol resolve rolling_mean to_ist formula symbol c)
  unfolding evaluate_symbol MatchEnds IsResult
  evaluate_symbol-IsResult formula symbol c = elim (matches_from-MatchEnds c 0 formula.filters) [
    | inl (ms, e, all) ↦
        subst
          (λ o.
            IsResult formula symbol c
              (o >>= result_of resolve rolling_mean to_ist formula symbol c))
          (sym e) (stamped ms all (last_timestamp to_ist c) refl)
    | inr (inl (e, fails)) ↦
        subst
          (λ o.
            IsResult formula symbol c
              (o >>= result_of resolve rolling_mean to_ist formula symbol c))
          (sym e) (inr (inl (refl, fails)))
    | inr (inr (x, e, other)) ↦
        subst
          (λ o.
            IsResult formula symbol c
              (o >>= result_of resolve rolling_mean to_ist formula symbol c))
          (sym e) (inr (inr (x, refl, inl other)))
  ]
    where
      built : List (ScreeningMatch F) → Datetime → Outcome (Option (ScreeningResult F))
      built ms ts = returned (
          some (record {
            symbol = symbol;
            side_bias = formula.side_bias;
            matches = ms;
            bars_evaluated = c.rows;
            last_bar_ts = ts;
          }))

      stamped :
          (ms : List (ScreeningMatch F))
          → AllMatch resolve rolling_mean to_ist c 0 formula.filters ms
          → (o : Outcome Datetime) → last_timestamp to_ist c ≡ o
          → IsResult formula symbol c
              (result_of resolve rolling_mean to_ist formula symbol c (some ms))
      stamped ms all (raised x) e =
          subst (λ o. IsResult formula symbol c (o >>= built ms)) (sym e)
            (inr (inr (x, refl, inr (ms, all, e))))
      stamped ms all (returned ts) e =
          subst (λ o. IsResult formula symbol c (o >>= built ms)) (sym e) (inl (_, refl, refl, all))
