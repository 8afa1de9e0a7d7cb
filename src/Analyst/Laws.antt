-- ===== src/Analyst/Laws.antt =====
-- Which verdicts `analyze` gives, and which exceptions it lets through.
use trader_ai.Prelude.{
  ℕ, ◌≡◌, refl, sym, ◌∙◌, ap, subst, ◌⊎◌, inl, inr, true, false, Option, none, some, pos, arith,
  Bool-cases, if_both,
}
use trader_ai.Prelude.Dict.{Dict, lookup}
use trader_ai.Float.{Float, nought, IsOrdered, HasTenths}
use trader_ai.Text.{Text, codes}
use trader_ai.Execution.Exceptions.{
  >>=-eq-returned, Exn, Outcome, returned, raised, returned_injective,
}
use trader_ai.Analyst.{
  VerdictAction, approve, veto, Verdict, Value, Root, object, text, Library, action_of,
  is_parse_error, is_transport_error, make_verdict, verdict_ok, to_float, value_or, read_action,
  root_object, verdict_from, parse_verdict, transport_fallback, veto_fallback, after_parse,
  after_answer, analyze,
}
use trader_ai.Analyst.Parsing.{extract_json_object}

module _ {F : Type 0} ⦃fl : Float F⦄ where
  open fl use {of_int, decimal, le}

  -- the numbers of a verdict lie between zero and one
  abbrev pub IsBounded : Verdict F → Type 0
  IsBounded v =
      (le nought v.size_multiplier ≡ true)
      × (le v.size_multiplier (of_int (pos 1)) ≡ true)
      × (le nought v.confidence ≡ true)
      × (le v.confidence (of_int (pos 1)) ≡ true)

  -- The answer holds an object whose entry "action" names the action.
  abbrev pub Names : Library F → Text → VerdictAction → Type 0
  Names lib raw action =
      (payload : Text) × (entries : Dict (Value F)) × (t : Text) × (extract_json_object raw
        ≡ returned payload)
      × (lib.loads payload ≡ returned (object entries))
      × (lookup "action" entries ≡ some (text t))
      × (action_of t ≡ some action)

  make_verdict-IsBounded : (v w : Verdict F) → make_verdict v ≡ returned w → (v ≡ w) × IsBounded w
  unfolding make_verdict verdict_ok
  make_verdict-IsBounded v w h = ground (arith, h)

  read_action-Names :
      (o : Option (Value F)) (a : VerdictAction)
      → read_action o ≡ returned a
      → (t : Text) × (o ≡ some (text t)) × (action_of t ≡ some a)
  unfolding read_action
  read_action-Names none a h = ground (arith, h)
  read_action-Names (some (text t)) a h = (t, refl, ground (arith, h))
  read_action-Names (some v) a h = ground (arith, h)

  root_object-object : (r : Root F) (d : Dict (Value F)) → root_object r ≡ returned d → r ≡ object d
  root_object-object r d h = ground (arith, h)

  verdict_from-Names :
      (lib : Library F) (provider : Text) (latency_ms : ℕ) (entries : Dict (Value F))
      (v : Verdict F)
      → verdict_from lib provider latency_ms entries ≡ returned v
      → ((t : Text) × (lookup "action" entries ≡ some (text t)) × (action_of t ≡ some v.action))
        × IsBounded v
  unfolding verdict_from
  verdict_from-Names lib provider latency_ms entries v h =
      let (action, e1, h1) = >>=-eq-returned (read_action (lookup "action" entries)) _ h in
      let (multiplier, e2, h2) =
        >>=-eq-returned (to_float lib (value_or (decimal 7 1) (lookup "size_multiplier" entries))) _
          h1 in
      let (confidence, e3, h3) =
        >>=-eq-returned (to_float lib (value_or (decimal 5 1) (lookup "confidence" entries))) _
          h2 in
      let (same, bounded) = make_verdict-IsBounded _ v h3 in
      (
        subst
            (λ (w : Verdict F).
              (t : Text) × (lookup "action" entries ≡ some (text t))
              × (action_of t ≡ some w.action))
            same (read_action-Names (lookup "action" entries) action e1),
        bounded,
      )

  parse_verdict-Names :
      (lib : Library F) (raw provider : Text) (latency_ms : ℕ) (v : Verdict F)
      → parse_verdict lib raw provider latency_ms ≡ returned v
      → Names lib raw v.action × IsBounded v
  unfolding parse_verdict
  parse_verdict-Names lib raw provider latency_ms v h =
      let (payload, e1, h1) = >>=-eq-returned (extract_json_object raw) _ h in
      let (root, e2, h2) = >>=-eq-returned (lib.loads payload) _ h1 in
      let (entries, e3, h3) = >>=-eq-returned (root_object root) _ h2 in
      let ((t, at, names), bounded) = verdict_from-Names lib provider latency_ms entries v h3 in
      (
        (payload, entries, t, e1, e2 ∙ ap returned (root_object-object root entries e3), at, names),
        bounded,
      )

  module _ {W : Type 0} (lib : Library F) (complete : Text → W → Outcome Text × W)
      (elapsed_ms : W → ℕ × W) (message : Exn → Text) (name : Text) where
    -- the provider could not be reached, and the signal stands at a reduced size
    abbrev pub IsUnreached : Text → W → Verdict F → Type 0
    IsUnreached prompt w v =
        (e : Exn) × ((complete prompt w).0 ≡ raised e)
        × (is_transport_error e.kind ≡ true)
        × (v.action ≡ approve)
        × (v.size_multiplier ≡ decimal 7 1)

    -- the provider answered with that action
    abbrev pub IsAdvised : Text → W → Verdict F → Type 0
    IsAdvised prompt w v =
        (raw : Text) × ((complete prompt w).0 ≡ returned raw) × Names lib raw v.action

    abbrev pub IsSanctioned : Text → W → Verdict F → Type 0
    IsSanctioned prompt w v =
        ((v.action ≡ veto) × (v.size_multiplier ≡ nought))
        ⊎ IsUnreached prompt w v
        ⊎ IsAdvised prompt w v

    after_answer-IsSanctioned :
        (prompt : Text) (w : W) (answer : Outcome Text) (latency_ms : ℕ) (v : Verdict F)
        → (complete prompt w).0 ≡ answer
        → after_answer lib complete elapsed_ms message name answer latency_ms ≡ returned v
        → IsBounded v × IsSanctioned prompt w v
    after_answer-IsSanctioned prompt w (raised e) latency_ms v k h =
        elim (Bool-cases (is_transport_error e.kind)) [
          | inl t ↦
              let (same, bounded) =
                make_verdict-IsBounded (transport_fallback (message e) latency_ms) v
                  (ground (arith, t, h)) in
              (
                bounded,
                inr (
                    inl (
                      e,
                      k,
                      t,
                      ap (λ (x : Verdict F). x.action) (sym same),
                      ap (λ (x : Verdict F). x.size_multiplier) (sym same),
                    )),
              )
          | inr t ↦
              let (same, bounded) =
                make_verdict-IsBounded
                  (veto_fallback (codes "fallback_unexpected") (message e) latency_ms) v
                  (ground (arith, t, h)) in
              (
                bounded,
                inl (
                  ap (λ (x : Verdict F). x.action) (sym same),
                  ap (λ (x : Verdict F). x.size_multiplier) (sym same),
                ),
              )
        ]
    after_answer-IsSanctioned prompt w (returned raw) latency_ms v k h =
        parsed (parse_verdict lib raw name latency_ms) refl h
      where
        parsed :
            (p : Outcome (Verdict F))
            → parse_verdict lib raw name latency_ms ≡ p
            → after_parse lib complete elapsed_ms message name latency_ms p ≡ returned v
            → IsBounded v × IsSanctioned prompt w v
        parsed (returned u) e q =
            let same = returned_injective q in
            let (names, bounded) = parse_verdict-Names lib raw name latency_ms v (e ∙ q) in
            (bounded, inr (inr (raw, k, names)))
        parsed (raised x) e q = elim (Bool-cases (is_parse_error x.kind)) [
          | inl t ↦
              let (same, bounded) =
                make_verdict-IsBounded
                  (veto_fallback (codes "fallback_parse_error") (message x) latency_ms) v
                  (ground (arith, t, q)) in
              (
                bounded,
                inl (
                  ap (λ (y : Verdict F). y.action) (sym same),
                  ap (λ (y : Verdict F). y.size_multiplier) (sym same),
                ),
              )
          | inr t ↦ ground (arith, t, q)
        ]

    -- If `analyze` returns a verdict, its size multiplier and its confidence lie between zero and one, and it is a veto at size zero; or the provider raised a transport error, and it approves at 0.7; or the provider answered with a text in which the object that is extracted names that action.
    pub analyze-IsSanctioned :
        (prompt : Text) (w : W) (v : Verdict F)
        → (analyze lib complete elapsed_ms message name prompt w).0 ≡ returned v
        → IsBounded v × IsSanctioned prompt w v
    unfolding analyze
    analyze-IsSanctioned prompt w v h = after_answer-IsSanctioned prompt w _ _ v refl h

    -- the reading of the answer raises what is not taken for a parse error
    abbrev pub IsUncaught : Text → W → Exn → Type 0
    IsUncaught prompt w e =
        (raw : Text) × (latency_ms : ℕ) × ((complete prompt w).0 ≡ returned raw)
        × (parse_verdict lib raw name latency_ms ≡ raised e)
        × (is_parse_error e.kind ≡ false)

    module _ (ordered : IsOrdered fl) (tenths : HasTenths fl) where
      fallback_ok :
          (rationale : Text) (latency_ms : ℕ)
          → make_verdict {F = F} (transport_fallback rationale latency_ms)
            ≡ returned (transport_fallback rationale latency_ms)
      unfolding make_verdict verdict_ok
      fallback_ok rationale latency_ms = ground (
        arith,
        tenths.tenth_nonneg 7 (omega arith),
        tenths.tenth_le_one 7 (omega arith),
        tenths.tenth_nonneg 5 (omega arith),
        tenths.tenth_le_one 5 (omega arith),
      )

      veto_ok :
          (provider rationale : Text) (latency_ms : ℕ)
          → make_verdict {F = F} (veto_fallback provider rationale latency_ms)
            ≡ returned (veto_fallback provider rationale latency_ms)
      unfolding make_verdict verdict_ok
      veto_ok provider rationale latency_ms =
          ground (arith, ordered.nought_refl, ordered.le_of_lt _ _ ordered.one_pos)

      Ends : Text → W → Outcome (Verdict F) → Type 0
      Ends prompt w o =
          ((v : Verdict F) × (o ≡ returned v))
          ⊎ ((e : Exn) × (o ≡ raised e) × IsUncaught prompt w e)

      answer-Ends :
          (prompt : Text) (w : W) (answer : Outcome Text) (latency_ms : ℕ)
          → (complete prompt w).0 ≡ answer
          → Ends prompt w (after_answer lib complete elapsed_ms message name answer latency_ms)
      unfolding Ends
      answer-Ends prompt w (raised e) latency_ms k =
          if_both (Ends prompt w) (is_transport_error e.kind)
            (λ _. inl (_, fallback_ok (message e) latency_ms))
            (λ _. inl (_, veto_ok _ (message e) latency_ms))
      answer-Ends prompt w (returned raw) latency_ms k =
          parsed (parse_verdict lib raw name latency_ms) refl
        where
          parsed :
              (p : Outcome (Verdict F))
              → parse_verdict lib raw name latency_ms ≡ p
              → Ends prompt w (after_parse lib complete elapsed_ms message name latency_ms p)
          parsed (returned v) e = inl (v, refl)
          parsed (raised x) e =
              if_both (Ends prompt w) (is_parse_error x.kind)
                (λ _. inl (_, veto_ok _ (message x) latency_ms))
                (λ t. inr (x, refl, (raw, latency_ms, k, e, t)))

      -- Given the laws of order and that a number of tenths up to ten lies between zero and one: `analyze` returns a verdict, whatever the provider answers or raises, unless the reading of its answer raises an exception that is no key, value or validation error; that exception comes out.
      pub analyze_ends :
          (prompt : Text) (w : W)
          → ((v : Verdict F) × ((analyze lib complete elapsed_ms message name prompt w).0
                ≡ returned v))
            ⊎ ((e : Exn) × ((analyze lib complete elapsed_ms message name prompt w).0 ≡ raised e)
                × IsUncaught prompt w e)
      unfolding analyze Ends
      analyze_ends prompt w = answer-Ends prompt w _ _ refl
