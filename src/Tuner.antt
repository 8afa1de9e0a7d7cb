-- ===== src/Tuner.antt =====
-- tuner/: the recommendations of the tuner, their cleaning and their application to the active
-- configuration of a symbol.
pub mod Applying
pub mod Cleaning
use trader_ai.Prelude.{
  Bool, true, false, ◌&&◌, ◌||◌, not, Option, none, some, List, [], ◌∷◌, if◌then◌else◌, String,
  str_eq,
}
use trader_ai.Prelude.Dict.{Dict, lookup, insert}
use trader_ai.Float.{Float, nought}
use trader_ai.Clock.{Datetime}
use trader_ai.Execution.Exceptions.{
  Outcome, returned, raised, exn, key_error, value_error, validation_error, ◌>>=◌,
}

pub data TuningAction : Type 0 where
  keep modify_params switch_strategy disable : TuningAction

-- `V` is the type of the parameters' values: an int, a float or a text
pub record SymbolTuningRecommendation (F V : Type 0) : Type 0 where
  pub symbol : String
  pub current_strategy_id : String
  pub action : TuningAction
  pub recommended_strategy_id : Option String
  pub params : Dict V
  pub rationale : String
  pub confidence : F

pub record TuningPlan (F V : Type 0) : Type 0 where
  pub name : String
  pub summary_rationale : String
  pub recommendations : List (SymbolTuningRecommendation F V)

pub data RecommendationStatus : Type 0 where
  pending applied rejected : RecommendationStatus

pub record StoredRecommendation (F V : Type 0) : Type 0 where
  pub id : String
  pub run_id : String
  pub recommendation : SymbolTuningRecommendation F V
  pub status : RecommendationStatus

pub record SymbolActiveConfig (V : Type 0) : Type 0 where
  pub symbol : String
  pub strategy_id : String
  pub params : Dict V
  pub enabled : Bool
  pub updated_at : Datetime
  pub source_recommendation_id : Option String

-- the table `strategy_symbol_config`, whose primary key is the symbol
abbrev pub ActiveConfigStore : Type 0 → Type 0
ActiveConfigStore V = Dict (SymbolActiveConfig V)

-- The registered strategies: for an id, the keyword arguments that `inspect.signature` finds for its
-- `__init__`, without `self` and `symbol`.
abbrev pub Registry : Type 0
Registry = String → Option (List String)

abbrev pub is_registered : Option (List String) → Bool
is_registered none = false
is_registered (some names) = true

abbrev pub is_in : String → List String → Bool
is_in k [] = false
is_in k (n ∷ ns) = str_eq k n || is_in k ns

-- `x or y` on an optional text
abbrev pub or_else : Option String → String → String
or_else none y = y
or_else (some x) y = if str_eq x "" then y else x

-- an optional text that is present and not empty
abbrev pub is_given : Option String → Bool
is_given none = false
is_given (some x) = not (str_eq x "")

module _ {V : Type 0} where
  -- `{k: v for k, v in params.items() if k in allowed}`
  unfoldable pub keep_allowed : List String → Dict V → Dict V
  keep_allowed allowed [] = []
  keep_allowed allowed ((k, v) ∷ d) =
      let rest = keep_allowed allowed d in if is_in k allowed then (k, v) ∷ rest else rest

  abbrev pub filter_for : Option (List String) → Dict V → Outcome (Dict V)
  filter_for none params = raised (exn key_error)
  filter_for (some allowed) params = returned (keep_allowed allowed params)

  unfoldable pub filter_strategy_params : Registry → String → Dict V → Outcome (Dict V)
  unfolding keep_allowed
  filter_strategy_params registry strategy_id params = filter_for (registry strategy_id) params

  -- `base.update(params)`
  abbrev pub update : Dict V → Dict V → Dict V
  update base [] = base
  update base ((k, v) ∷ d) = update (insert k v base) d

  abbrev pub is_empty : Dict V → Bool
  is_empty [] = true
  is_empty (e ∷ d) = false

  -- `get` and `upsert`; the parameters go through JSON and come back as they were
  unfoldable pub get : String → ActiveConfigStore V → Option (SymbolActiveConfig V)
  get symbol active = lookup symbol active

  unfoldable pub upsert : SymbolActiveConfig V → ActiveConfigStore V → ActiveConfigStore V
  upsert cfg active = insert cfg.symbol cfg active

  abbrev pub existing_params : Option (SymbolActiveConfig V) → Dict V
  existing_params none = []
  existing_params (some cfg) = cfg.params

  abbrev pub existing_enabled : Option (SymbolActiveConfig V) → Bool
  existing_enabled none = true
  existing_enabled (some cfg) = cfg.enabled

  -- `current_params or (existing.params if existing else {})`
  abbrev pub base_params : Option (Dict V) → Option (SymbolActiveConfig V) → Dict V
  base_params none existing = existing_params existing
  base_params (some d) existing = if is_empty d then existing_params existing else d

  abbrev pub enabled_after : TuningAction → Option (SymbolActiveConfig V) → Bool
  enabled_after keep existing = existing_enabled existing
  enabled_after disable existing = false
  enabled_after action existing = true

  abbrev pub empty_refused : TuningAction → Dict V → Outcome (Dict V)
  empty_refused modify_params [] = raised (exn value_error)
  empty_refused action params = returned params

  abbrev pub store_config :
      Outcome (SymbolActiveConfig V)
      → ActiveConfigStore V
      → Outcome (SymbolActiveConfig V) × ActiveConfigStore V
  store_config (raised e) active = (raised e, active)
  store_config (returned cfg) active = (returned cfg, upsert cfg active)

  module _ {F : Type 0} where
    abbrev pub target_of : SymbolTuningRecommendation F V → String
    target_of rec = or_else rec.recommended_strategy_id rec.current_strategy_id

    -- `_validate_action_shape`
    abbrev pub shape_ok : Registry → SymbolTuningRecommendation F V → TuningAction → Bool
    shape_ok registry rec keep = true
    shape_ok registry rec disable = true
    shape_ok registry rec switch_strategy =
        is_given rec.recommended_strategy_id && is_registered (registry (target_of rec))
    shape_ok registry rec modify_params =
        not (is_empty rec.params) && is_registered (registry (target_of rec))

    unfoldable pub effective_strategy_id : SymbolTuningRecommendation F V → TuningAction → String
    effective_strategy_id rec switch_strategy = target_of rec
    effective_strategy_id rec action = rec.current_strategy_id

    unfoldable pub merged_params : SymbolTuningRecommendation F V → TuningAction → Dict V → Dict V
    merged_params rec keep current = current
    merged_params rec disable current = current
    merged_params rec action current = update current rec.params

  module _ {F : Type 0} ⦃fl : Float F⦄ where
    -- the constraints of the fields and of the shape
    unfoldable pub recommendation_ok : Registry → SymbolTuningRecommendation F V → Bool
    recommendation_ok registry rec =
        not (str_eq rec.symbol "")
        && not (str_eq rec.current_strategy_id "")
        && not (str_eq rec.rationale "")
        && fl.le nought rec.confidence
        && fl.le rec.confidence (fl.decimal 1 0)
        && shape_ok registry rec rec.action

    unfoldable pub make_recommendation :
        Registry → SymbolTuningRecommendation F V → Outcome (SymbolTuningRecommendation F V)
    make_recommendation registry rec =
        if recommendation_ok registry rec then returned rec else raised (exn validation_error)

    abbrev pub cleaned_params :
        Registry → SymbolTuningRecommendation F V → TuningAction → Outcome (Dict V)
    cleaned_params registry rec keep = returned []
    cleaned_params registry rec disable = returned []
    cleaned_params registry rec action =
        filter_strategy_params registry (effective_strategy_id rec action) rec.params

    -- a round of the loop of `sanitise_plan`
    unfoldable pub sanitise_recommendation :
        Registry → SymbolTuningRecommendation F V → Outcome (SymbolTuningRecommendation F V)
    unfolding filter_strategy_params make_recommendation effective_strategy_id
    sanitise_recommendation registry rec = do
      params ← cleaned_params registry rec rec.action
      make_recommendation registry (record rec { params = params })

    unfoldable pub sanitise_all :
        Registry
        → List (SymbolTuningRecommendation F V)
        → Outcome (List (SymbolTuningRecommendation F V))
    unfolding sanitise_recommendation
    sanitise_all registry [] = returned []
    sanitise_all registry (rec ∷ recs) = do
      cleaned ← sanitise_recommendation registry rec
      rest ← sanitise_all registry recs
      returned (cleaned ∷ rest)

    unfoldable pub sanitise_plan : Registry → TuningPlan F V → Outcome (TuningPlan F V)
    unfolding sanitise_all
    sanitise_plan registry plan = do
      cleaned ← sanitise_all registry plan.recommendations
      returned (record plan { recommendations = cleaned })

    -- the configuration that a recommendation gives
    unfoldable pub new_config :
        Registry
        → Datetime
        → String
        → SymbolTuningRecommendation F V
        → Option (Dict V)
        → Option (SymbolActiveConfig V)
        → Outcome (SymbolActiveConfig V)
    unfolding make_recommendation filter_strategy_params effective_strategy_id merged_params
    new_config registry now id stored current existing = do
      rec ← make_recommendation registry stored
      filtered ←
          filter_strategy_params registry (effective_strategy_id rec rec.action)
            (merged_params rec rec.action (base_params current existing))
      params ← empty_refused rec.action filtered
      returned (record {
        symbol = stored.symbol;
        strategy_id = effective_strategy_id rec rec.action;
        params = params;
        enabled = enabled_after rec.action existing;
        updated_at = now;
        source_recommendation_id = some id;
      })

    unfoldable pub apply_recommendation :
        Registry
        → Datetime
        → StoredRecommendation F V
        → Option (Dict V)
        → ActiveConfigStore V
        → Outcome (SymbolActiveConfig V) × ActiveConfigStore V
    unfolding new_config upsert get
    apply_recommendation registry now stored current active =
        store_config
          (new_config registry now stored.id stored.recommendation current
            (get stored.recommendation.symbol active))
          active
