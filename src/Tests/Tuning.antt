-- ===== src/Tests/Tuning.antt =====
-- A recommendation that changes one parameter.
use trader_ai.Prelude.{
  ℕ, ◌≡◌, refl, ◌⊎◌, none, some, [], ◌∷◌, pos, if◌then◌else◌, str_eq, ◌*ℤ◌, get_elem?,
}
use trader_ai.Prelude.Dict.{Dict}
use trader_ai.Float.Fixed.{Fixed, fixed_float}
use trader_ai.Execution.Exceptions.{Exn, returned, raised}
use trader_ai.Tuner.{
  modify_params, SymbolTuningRecommendation, TuningPlan, StoredRecommendation, pending, Registry,
  sanitise_plan, sanitise_all, sanitise_recommendation, filter_strategy_params, keep_allowed,
  effective_strategy_id, make_recommendation, recommendation_ok,
}
use trader_ai.Tuner.Cleaning.{AllCleaned, IsUnclean, sanitise_plan-AllCleaned}

abbrev registry : Registry
registry id = if str_eq id "orb" then some ("window" ∷ "buffer" ∷ []) else none

abbrev change : Dict ℕ → SymbolTuningRecommendation Fixed ℕ
change params = record {
  symbol = "INFY";
  current_strategy_id = "orb";
  action = modify_params;
  recommended_strategy_id = none;
  params = params;
  rationale = "late entries";
  confidence = pos 5_000;
}

abbrev stored : StoredRecommendation Fixed ℕ
stored = record {
  id = "r1";
  run_id = "t1";
  recommendation = change (("window", 20) ∷ ("colour", 3) ∷ []);
  status = pending;
}

abbrev plan : TuningPlan Fixed ℕ
plan = record {
  name = "weekly";
  summary_rationale = "late entries";
  recommendations = change (("window", 20) ∷ ("colour", 3) ∷ []) ∷ [];
}

cleaned_once :
    sanitise_plan registry plan
    ≡ returned (record plan { recommendations = change (("window", 20) ∷ []) ∷ [] })
unfolding sanitise_plan sanitise_all sanitise_recommendation filter_strategy_params keep_allowed
    effective_strategy_id make_recommendation recommendation_ok ◌*ℤ◌
cleaned_once = refl

sanitise_plan-AllCleaned_example :
    ((cleaned : TuningPlan Fixed ℕ) × (sanitise_plan registry plan ≡ returned cleaned)
      × (cleaned.name ≡ "weekly")
      × (cleaned.summary_rationale ≡ "late entries")
      × AllCleaned registry plan.recommendations cleaned.recommendations)
    ⊎ ((e : Exn) × (sanitise_plan registry plan ≡ raised e)
        × (i : ℕ) × (rec : SymbolTuningRecommendation Fixed ℕ) × (get_elem? plan.recommendations i
            ≡ some rec)
        × IsUnclean registry rec e)
sanitise_plan-AllCleaned_example = sanitise_plan-AllCleaned registry plan
