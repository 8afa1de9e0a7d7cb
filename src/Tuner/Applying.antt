-- ===== src/Tuner/Applying.antt =====
-- What applying a recommendation does to the active configuration.
use trader_ai.Prelude.{
  ◌≡◌, refl, ◌∙◌, ap, ◌⊎◌, Bool, true, false, Option, none, some, List, [], ◌∷◌, if◌then◌else◌,
  String, str_eq, str_eq_iff, arith,
}
use trader_ai.Prelude.Dict.{Dict, lookup}
use trader_ai.Float.{Float}
use trader_ai.Clock.{Datetime}
use trader_ai.Execution.Exceptions.{Exn, Outcome, returned, raised}
use trader_ai.Tuner.{
  modify_params, SymbolTuningRecommendation, StoredRecommendation, SymbolActiveConfig,
  ActiveConfigStore, Registry, is_in, keep_allowed, effective_strategy_id, merged_params,
  recommendation_ok, base_params, enabled_after,
}

is_in-same :
    (k j : String) (names : List String) → str_eq k j ≡ true → is_in k names ≡ is_in j names
is_in-same k j names e = ap (λ t. is_in t names) ((str_eq_iff k j).0 e)

module _ {V : Type 0} where
  pub lookup-keep_allowed :
      (k : String) (names : List String) (d : Dict V)
      → lookup k (keep_allowed names d) ≡ (if is_in k names then lookup k d else none)
  unfolding lookup keep_allowed
  lookup-keep_allowed k names [] = ground arith
  lookup-keep_allowed k names ((j, v) ∷ d) =
      lookup-if (is_in j names)
      ∙ ground (
        arith,
        lookup-keep_allowed k names d,
        is_in-same k j names,
        is_in-same j k names,
        str_eq_iff k j,
        str_eq_iff j k,
      )
    where
      lookup-if :
          (b : Bool)
          → lookup k (if b then (j, v) ∷ keep_allowed names d else keep_allowed names d) ≡ (
              if b
              then (if str_eq j k then some v else lookup k (keep_allowed names d))
              else lookup k (keep_allowed names d))
      lookup-if true = refl
      lookup-if false = refl

  -- a configuration is stored under its symbol, and every other symbol keeps its own
  abbrev pub IsStored :
      String → SymbolActiveConfig V → ActiveConfigStore V → ActiveConfigStore V → Type 0
  IsStored symbol cfg active after =
      (j : String) → lookup j after ≡ (if str_eq symbol j then some cfg else lookup j active)

module _ {F V : Type 0} ⦃fl : Float F⦄ (registry : Registry) (now : Datetime) where
  -- the configuration that a recommendation asks for: the parameters that its strategy takes, of
  -- those wanted
  pub record IsAsked (id : String) (rec : SymbolTuningRecommendation F V)
      (current : Option (Dict V)) (existing : Option (SymbolActiveConfig V))
      (cfg : SymbolActiveConfig V) : Type 0 where
    pub sound : recommendation_ok registry rec ≡ true
    pub same_symbol : cfg.symbol ≡ rec.symbol
    pub strategy : cfg.strategy_id ≡ effective_strategy_id rec rec.action
    pub names : List String
    pub registered : registry (effective_strategy_id rec rec.action) ≡ some names
    pub taken :
        (k : String)
        → lookup k cfg.params ≡ (
            if is_in k names
            then lookup k (merged_params rec rec.action (base_params current existing))
            else none)
    pub enabling : cfg.enabled ≡ enabled_after rec.action existing
    pub source : cfg.source_recommendation_id ≡ some id

  -- why a recommendation is refused: it is malformed, its strategy is unknown, or none of the
  -- parameters it modifies is taken
  abbrev pub IsRefused :
      SymbolTuningRecommendation F V → Option (Dict V) → Option (SymbolActiveConfig V) → Type 0
  IsRefused rec current existing =
      (recommendation_ok registry rec ≡ false)
      ⊎ (registry (effective_strategy_id rec rec.action) ≡ none)
      ⊎ ((rec.action ≡ modify_params)
          × (names : List String) × (registry (effective_strategy_id rec rec.action) ≡ some names)
          × (keep_allowed names (merged_params rec rec.action (base_params current existing)) ≡ []))

  Ends :
      String
      → SymbolTuningRecommendation F V
      → Option (Dict V)
      → Option (SymbolActiveConfig V)
      → Outcome (SymbolActiveConfig V)
      → Type 0
  Ends id rec current existing o =
      ((cfg : SymbolActiveConfig V) × (o ≡ returned cfg) × IsAsked id rec current existing cfg)
      ⊎ ((e : Exn) × (o ≡ raised e) × IsRefused rec current existing)

  Applied :
      StoredRecommendation F V
      → Option (Dict V)
      → ActiveConfigStore V
      → Outcome (SymbolActiveConfig V) × ActiveConfigStore V
      → Type 0
  Applied stored current active x =
      ((cfg : SymbolActiveConfig V) × (x.0 ≡ returned cfg)
        × IsAsked stored.id stored.recommendation current
            (lookup stored.recommendation.symbol active) cfg
        × IsStored stored.recommendation.symbol cfg active x.1)
      ⊎ ((e : Exn) × (x.0 ≡ raised e)
          × (x.1 ≡ active)
          × IsRefused stored.recommendation current (lookup stored.recommendation.symbol active))
