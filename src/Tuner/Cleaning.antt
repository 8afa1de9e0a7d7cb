-- ===== src/Tuner/Cleaning.antt =====
-- What cleaning makes of a plan, and when it refuses it.
use trader_ai.Prelude.{
  ℕ, suc, ◌≡◌, refl, sym, ap, subst, ◌⊎◌, inl, inr, true, false, Option, none, some, List, [], ◌∷◌,
  get_elem?, if◌then◌else◌, if_both, String,
}
use trader_ai.Prelude.Dict.{Dict, lookup}
use trader_ai.Float.{Float}
use trader_ai.Execution.Exceptions.{
  Exn, Outcome, returned, raised, key_error, validation_error, ◌>>=◌,
}
use trader_ai.Tuner.{
  TuningAction, keep, modify_params, switch_strategy, disable, SymbolTuningRecommendation,
  TuningPlan, Registry, is_in, filter_for, filter_strategy_params, effective_strategy_id,
  recommendation_ok, make_recommendation, cleaned_params, sanitise_recommendation, sanitise_all,
  sanitise_plan,
}
use trader_ai.Tuner.Applying.{lookup-keep_allowed}

module _ {F V : Type 0} ⦃fl : Float F⦄ (registry : Registry) where
  -- of the parameters of a recommendation, those that a strategy takes
  abbrev pub IsTaken : SymbolTuningRecommendation F V → String → Dict V → Type 0
  IsTaken rec strategy_id p =
      (names : List String) × (registry strategy_id ≡ some names)
      × ((k : String) → lookup k p ≡ (if is_in k names then lookup k rec.params else none))

  -- the parameters that cleaning leaves: none where the action has none, else those that the current
  -- strategy takes, or the one that the symbol is switched to
  abbrev pub HasTaken : SymbolTuningRecommendation F V → TuningAction → Dict V → Type 0
  HasTaken rec keep p = p ≡ []
  HasTaken rec disable p = p ≡ []
  HasTaken rec modify_params p = IsTaken rec rec.current_strategy_id p
  HasTaken rec switch_strategy p = IsTaken rec (effective_strategy_id rec switch_strategy) p

  -- a recommendation that differs in its parameters only, and meets the constraints of the schema
  pub record IsCleaned (rec c : SymbolTuningRecommendation F V) : Type 0 where
    pub same : c ≡ record rec { params = c.params }
    pub taken : HasTaken rec rec.action c.params
    pub sound : recommendation_ok registry c ≡ true

  abbrev pub IsUnregistered : SymbolTuningRecommendation F V → TuningAction → Type 0
  IsUnregistered rec keep = ⊥
  IsUnregistered rec disable = ⊥
  IsUnregistered rec modify_params = registry rec.current_strategy_id ≡ none
  IsUnregistered rec switch_strategy = registry (effective_strategy_id rec switch_strategy) ≡ none

  -- why cleaning raises: the strategy is not registered, or what is left of the recommendation does
  -- not meet the constraints
  abbrev pub IsUnclean : SymbolTuningRecommendation F V → Exn → Type 0
  IsUnclean rec e =
      (IsUnregistered rec rec.action × (e.kind ≡ key_error))
      ⊎ ((p : Dict V) × HasTaken rec rec.action p
          × (recommendation_ok registry (record rec { params = p }) ≡ false)
          × (e.kind ≡ validation_error))

  abbrev pub AllCleaned :
      List (SymbolTuningRecommendation F V) → List (SymbolTuningRecommendation F V) → Type 0
  AllCleaned [] [] = Unit
  AllCleaned (r ∷ rs) (c ∷ cs) = IsCleaned r c × AllCleaned rs cs
  AllCleaned [] (c ∷ cs) = ⊥
  AllCleaned (r ∷ rs) [] = ⊥

  filter_strategy_params-cases :
      (rec : SymbolTuningRecommendation F V) (strategy_id : String)
      → ((p : Dict V) × (filter_strategy_params registry strategy_id rec.params ≡ returned p)
          × IsTaken rec strategy_id p)
        ⊎ ((e : Exn) × (filter_strategy_params registry strategy_id rec.params ≡ raised e)
            × (registry strategy_id ≡ none)
            × (e.kind ≡ key_error))
  unfolding filter_strategy_params
  filter_strategy_params-cases rec strategy_id = filtered (registry strategy_id) refl
    where
      filtered :
          (o : Option (List String))
          → registry strategy_id ≡ o
          → ((p : Dict V) × (filter_for (registry strategy_id) rec.params ≡ returned p)
              × IsTaken rec strategy_id p)
            ⊎ ((e : Exn) × (filter_for (registry strategy_id) rec.params ≡ raised e)
                × (registry strategy_id ≡ none)
                × (e.kind ≡ key_error))
      filtered none h = inr (_, ap (λ o. filter_for o rec.params) h, h, refl)
      filtered (some names) h = inl (
        _,
        ap (λ o. filter_for o rec.params) h,
        (names, h, λ k. lookup-keep_allowed k names rec.params),
      )

  cleaned_params-cases :
      (rec : SymbolTuningRecommendation F V) (action : TuningAction)
      → ((p : Dict V) × (cleaned_params registry rec action ≡ returned p) × HasTaken rec action p)
        ⊎ ((e : Exn) × (cleaned_params registry rec action ≡ raised e)
            × IsUnregistered rec action
            × (e.kind ≡ key_error))
  unfolding effective_strategy_id
  cleaned_params-cases rec keep = inl ([], refl, refl)
  cleaned_params-cases rec disable = inl ([], refl, refl)
  cleaned_params-cases rec modify_params = filter_strategy_params-cases rec rec.current_strategy_id
  cleaned_params-cases rec switch_strategy =
      filter_strategy_params-cases rec (effective_strategy_id rec switch_strategy)

  Ends : SymbolTuningRecommendation F V → Outcome (SymbolTuningRecommendation F V) → Type 0
  Ends rec o =
      ((c : SymbolTuningRecommendation F V) × (o ≡ returned c) × IsCleaned rec c)
      ⊎ ((e : Exn) × (o ≡ raised e) × IsUnclean rec e)

  sanitise_recommendation-Ends :
      (rec : SymbolTuningRecommendation F V) → Ends rec (sanitise_recommendation registry rec)
  unfolding sanitise_recommendation make_recommendation Ends
  sanitise_recommendation-Ends rec = elim (cleaned_params-cases rec rec.action) [
    | inl (p, e, taken) ↦
        subst (λ o. Ends rec (o >>= made)) (sym e)
          (if_both (Ends rec) (recommendation_ok registry (record rec { params = p }))
            (λ ok. inl (_, refl, record { same = refl; taken = taken; sound = ok }))
            (λ bad. inr (_, refl, inr (p, taken, bad, refl))))
    | inr (x, e, unknown, key) ↦
        subst (λ o. Ends rec (o >>= made)) (sym e) (inr (x, refl, inl (unknown, key)))
  ]
    where
      made : Dict V → Outcome (SymbolTuningRecommendation F V)
      made p = make_recommendation registry (record rec { params = p })

  AllEnd :
      List (SymbolTuningRecommendation F V)
      → Outcome (List (SymbolTuningRecommendation F V))
      → Type 0
  AllEnd rs o =
      ((cs : List (SymbolTuningRecommendation F V)) × (o ≡ returned cs) × AllCleaned rs cs)
      ⊎ ((e : Exn) × (o ≡ raised e)
          × (i : ℕ) × (rec : SymbolTuningRecommendation F V) × (get_elem? rs i ≡ some rec)
          × IsUnclean rec e)

  sanitise_all-AllEnd :
      (rs : List (SymbolTuningRecommendation F V)) → AllEnd rs (sanitise_all registry rs)
  unfolding sanitise_all AllEnd Ends
  sanitise_all-AllEnd [] = inl ([], refl, tt)
  sanitise_all-AllEnd (r ∷ rs) = elim (sanitise_recommendation-Ends r) [
    | inl (c, e, cleaned) ↦
        subst (λ o. AllEnd (r ∷ rs) (o >>= continued)) (sym e)
          (joined c cleaned (sanitise_all-AllEnd rs))
    | inr (x, e, unclean) ↦
        subst (λ o. AllEnd (r ∷ rs) (o >>= continued)) (sym e) (inr (x, refl, 0, r, refl, unclean))
  ]
    where
      continued : SymbolTuningRecommendation F V → Outcome (List (SymbolTuningRecommendation F V))
      continued c = sanitise_all registry rs >>= λ cs. returned (c ∷ cs)

      joined :
          (c : SymbolTuningRecommendation F V)
          → IsCleaned r c
          → AllEnd rs (sanitise_all registry rs)
          → AllEnd (r ∷ rs) (continued c)
      joined c cleaned (inl (cs, e, all)) =
          subst (λ o. AllEnd (r ∷ rs) (o >>= λ cs. returned (c ∷ cs))) (sym e)
            (inl (c ∷ cs, refl, (cleaned, all)))
      joined c cleaned (inr (x, e, i, rec, at, unclean)) =
          subst (λ o. AllEnd (r ∷ rs) (o >>= λ cs. returned (c ∷ cs))) (sym e)
            (inr (x, refl, suc i, rec, at, unclean))

  -- Cleaning a plan keeps its name, its summary and its recommendations in their order, each with all its fields but the parameters, and leaves it those parameters that its strategy takes, with their values, and no others (none where it keeps or disables); each of them then meets the constraints of the schema. Or it raises, because of one of the recommendations: a key error if the strategy whose parameters it sets is not registered, a validation error if what is left of it does not meet the constraints.
  pub sanitise_plan-AllCleaned :
      (plan : TuningPlan F V)
      → ((cleaned : TuningPlan F V) × (sanitise_plan registry plan ≡ returned cleaned)
          × (cleaned.name ≡ plan.name)
          × (cleaned.summary_rationale ≡ plan.summary_rationale)
          × AllCleaned plan.recommendations cleaned.recommendations)
        ⊎ ((e : Exn) × (sanitise_plan registry plan ≡ raised e)
            × (i : ℕ) × (rec : SymbolTuningRecommendation F V) × (get_elem? plan.recommendations i
                ≡ some rec)
            × IsUnclean rec e)
  unfolding sanitise_plan AllEnd
  sanitise_plan-AllCleaned plan = elim (sanitise_all-AllEnd plan.recommendations) [
    | inl (cs, e, all) ↦ inl (
      record plan { recommendations = cs },
      ap (λ o. o >>= λ l. returned (record plan { recommendations = l })) e,
      refl,
      refl,
      all,
    )
    | inr (x, e, i, rec, at, why) ↦
        inr (
          x,
          ap (λ o. o >>= λ l. returned (record plan { recommendations = l })) e,
          i,
          rec,
          at,
          why,
        )
  ]
