-- ===== src/Analyst.antt =====
-- analyst/analyst.py and analyst/verdict.py: the advice of a language model on a signal.
pub mod Parsing
pub mod Laws
use trader_ai.Prelude.{
  ℕ, Bool, true, false, Option, none, some, List, [], ◌∷◌, if◌then◌else◌, ◌&&◌, ◌||◌, ℤ, pos,
  String,
}
use trader_ai.Prelude.Dict.{Dict, lookup}
use trader_ai.Float.{Float, nought, max_f, min_f}
use trader_ai.Text.{Text, codes, text_eq}
use trader_ai.Execution.Exceptions.{
  ◌>>=◌, exn, Kind, value_error, validation_error, key_error, type_error, timeout_error, http_error,
  Exn, Outcome, returned, raised,
}
use trader_ai.Analyst.Parsing.{extract_json_object}

pub data VerdictAction : Type 0 where
  approve veto shrink : VerdictAction

-- the texts that a verdict carries are a message or what the caller gave
pub record Verdict (F : Type 0) : Type 0 where
  pub action : VerdictAction
  pub size_multiplier : F
  pub confidence : F
  pub rationale : Text
  pub provider : Text
  pub latency_ms : ℕ

-- a JSON value as `json.loads` gives it; what stands inside an array or an inner object is not read
pub data Value (F : Type 0) : Type 0 where
  null array inner_object : Value F
  boolean : Bool → Value F
  integer : ℤ → Value F
  real : F → Value F
  text : Text → Value F

pub data Root (F : Type 0) : Type 0 where
  object : Dict (Value F) → Root F
  other_root : Root F

-- The calls of Python's library: `json.loads`, `float` of an int and of a text, `str`.
pub record Library (F : Type 0) : Type 0 where
  pub loads : Text → Outcome (Root F)
  pub float_of_int : ℤ → Outcome F
  pub float_of_text : Text → Outcome F
  pub str : Value F → Text

-- `action_raw not in VALID_ACTIONS`
unfoldable pub action_of : Text → Option VerdictAction
action_of t =
    if text_eq t (codes "APPROVE")
    then some approve
    else if text_eq t (codes "VETO")
    then some veto
    else if text_eq t (codes "SHRINK")
    then some shrink
    else none

-- the exceptions that `analyze` takes for a parse error; `JSONDecodeError` is a `ValueError`
abbrev pub is_parse_error : Kind → Bool
is_parse_error key_error = true
is_parse_error value_error = true
is_parse_error validation_error = true
is_parse_error _ = false

abbrev pub is_transport_error : Kind → Bool
is_transport_error timeout_error = true
is_transport_error http_error = true
is_transport_error _ = false

module _ {F : Type 0} ⦃fl : Float F⦄ where
  open fl use {of_int, decimal, le}

  -- the bounds of the fields; the latency is a natural number
  unfoldable pub verdict_ok : Verdict F → Bool
  verdict_ok v =
      le nought v.size_multiplier
      && le v.size_multiplier (of_int (pos 1))
      && le nought v.confidence
      && le v.confidence (of_int (pos 1))

  -- `Verdict(...)`
  unfoldable pub make_verdict : Verdict F → Outcome (Verdict F)
  make_verdict v = if verdict_ok v then returned v else raised (exn validation_error)

  -- `float(value)`
  unfoldable pub to_float : Library F → Value F → Outcome F
  to_float lib null = raised (exn type_error)
  to_float lib array = raised (exn type_error)
  to_float lib inner_object = raised (exn type_error)
  to_float lib (boolean true) = returned (of_int (pos 1))
  to_float lib (boolean false) = returned nought
  to_float lib (integer n) = lib.float_of_int n
  to_float lib (real x) = returned x
  to_float lib (text t) = lib.float_of_text t

  abbrev pub value_or : F → Option (Value F) → Value F
  value_or default none = real default
  value_or default (some v) = v

  -- `min(1.0, max(0.0, x))`
  abbrev pub clamp : F → F
  clamp x = min_f (of_int (pos 1)) (max_f nought x)

  abbrev pub rationale_of : Library F → Option (Value F) → Text
  rationale_of lib none = []
  rationale_of lib (some v) = lib.str v

  -- the action of the object, with `KeyError` for a missing key and `ValueError` for a wrong value
  unfoldable pub read_action : Option (Value F) → Outcome VerdictAction
  unfolding action_of
  read_action none = raised (exn key_error)
  read_action (some (text t)) = elim (action_of t) [
    | none ↦ raised (exn value_error)
    | some a ↦ returned a
  ]
  read_action (some v) = raised (exn value_error)

  abbrev pub root_object : Root F → Outcome (Dict (Value F))
  root_object other_root = raised (exn value_error)
  root_object (object d) = returned d

  -- the rest of `_parse_verdict`, from the object on
  unfoldable pub verdict_from : Library F → Text → ℕ → Dict (Value F) → Outcome (Verdict F)
  unfolding read_action to_float make_verdict
  verdict_from lib provider latency_ms entries = do
    action ← read_action (lookup "action" entries)
    multiplier ← to_float lib (value_or (decimal 7 1) (lookup "size_multiplier" entries))
    confidence ← to_float lib (value_or (decimal 5 1) (lookup "confidence" entries))
    make_verdict (record {
      action = action;
      size_multiplier = clamp multiplier;
      confidence = clamp confidence;
      rationale = rationale_of lib (lookup "rationale" entries);
      provider = provider;
      latency_ms = latency_ms;
    })

  -- `_parse_verdict`
  unfoldable pub parse_verdict : Library F → Text → Text → ℕ → Outcome (Verdict F)
  unfolding extract_json_object verdict_from
  parse_verdict lib raw provider latency_ms = do
    payload ← extract_json_object raw
    root ← lib.loads payload
    entries ← root_object root
    verdict_from lib provider latency_ms entries

  -- the fallbacks; their rationale, a message with `str(exc)`, is given
  abbrev pub transport_fallback : Text → ℕ → Verdict F
  transport_fallback rationale latency_ms = record {
    action = approve;
    size_multiplier = decimal 7 1;
    confidence = decimal 5 1;
    rationale = rationale;
    provider = codes "fallback";
    latency_ms = latency_ms;
  }

  abbrev pub veto_fallback : Text → Text → ℕ → Verdict F
  veto_fallback provider rationale latency_ms = record {
    action = veto;
    size_multiplier = nought;
    confidence = nought;
    rationale = rationale;
    provider = provider;
    latency_ms = latency_ms;
  }

  -- The provider answers or raises; `elapsed_ms` is the time since the request, and `message` the
  -- rationale of a fallback.
  module _ {W : Type 0} (lib : Library F) (complete : Text → W → Outcome Text × W)
      (elapsed_ms : W → ℕ × W) (message : Exn → Text) (name : Text) where
    abbrev pub after_failure : Exn → ℕ → Outcome (Verdict F)
    after_failure e latency_ms =
        if is_transport_error e.kind
        then make_verdict (transport_fallback (message e) latency_ms)
        else make_verdict (veto_fallback (codes "fallback_unexpected") (message e) latency_ms)

    abbrev pub after_parse : ℕ → Outcome (Verdict F) → Outcome (Verdict F)
    after_parse latency_ms (returned v) = returned v
    after_parse latency_ms (raised e) =
        if is_parse_error e.kind
        then make_verdict (veto_fallback (codes "fallback_parse_error") (message e) latency_ms)
        else raised e

    abbrev pub after_answer : Outcome Text → ℕ → Outcome (Verdict F)
    after_answer (raised e) latency_ms = after_failure e latency_ms
    after_answer (returned raw) latency_ms =
        after_parse latency_ms (parse_verdict lib raw name latency_ms)

    -- `analyze`, from the prompt on
    unfoldable pub analyze : Text → W → Outcome (Verdict F) × W
    unfolding make_verdict parse_verdict
    analyze prompt w =
        let (answer, w') = complete prompt w in
        let (latency_ms, w'') = elapsed_ms w' in (after_answer answer latency_ms, w'')
