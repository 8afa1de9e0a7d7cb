-- ===== src/Tests/Advice.antt =====
-- Answers of a language model.
use trader_ai.Prelude.{ℕ, suc, ◌≡◌, refl, ◌⊎◌, some, [], ◌∷◌, ◌++◌, pos, arith, ◌*ℤ◌}
use trader_ai.Prelude.Dict.{lookup}
use trader_ai.Float.Fixed.{Fixed, fixed_float, fixed-IsOrdered, fixed-HasTenths}
use trader_ai.Text.{Text, codes, strip, lstrip, is_space, text_eq}
use trader_ai.Execution.Exceptions.{exn, Exn, Outcome, returned, raised, type_error}
use trader_ai.Analyst.{
  shrink, Verdict, Value, null, text, real, object, Library, analyze, parse_verdict, verdict_from,
  read_action, action_of, to_float, make_verdict, verdict_ok,
}
use trader_ai.Analyst.Laws.{IsBounded, IsSanctioned, IsUncaught, analyze-IsSanctioned, analyze_ends}
use trader_ai.Analyst.Parsing.{
  find_first_balanced_object, find_from, extract_json_object, strip_code_fences, startswith,
  ends_with_brace,
}
use trader_ai.Analyst.Parsing.Balance.{plain, Closes, IsObjectIn}
use trader_ai.Analyst.Parsing.Objects.{
  IsProse, find_first_balanced_object-IsObjectIn, find_first_balanced_object_recovers,
}

abbrev prose : Text
prose = codes "Sure: "

-- an object that holds an object
abbrev body : Text
body = codes "'a': {'b': 1}}"

abbrev after : Text
after = codes " - {done}"

prose-IsProse : IsProse prose
prose-IsProse = ground arith

body-Closes : Closes 1 plain body
body-Closes = ground arith

find_first_balanced_object_recovers_example :
    find_first_balanced_object (prose ++ (b'{' ∷ (body ++ after))) ≡ some (b'{' ∷ body)
find_first_balanced_object_recovers_example =
    find_first_balanced_object_recovers prose body after prose-IsProse body-Closes

abbrev answer : Text
answer = prose ++ (b'{' ∷ (body ++ after))

scanned : find_first_balanced_object answer ≡ some (b'{' ∷ body)
unfolding find_first_balanced_object find_from
scanned = refl

find_first_balanced_object-IsObjectIn_example : IsObjectIn answer (b'{' ∷ body)
find_first_balanced_object-IsObjectIn_example =
    find_first_balanced_object-IsObjectIn answer (b'{' ∷ body) scanned

-- a library that reads every text as an order to shrink to a half, with the size that is given
abbrev library : Value Fixed → Library Fixed
library size = record {
  loads =
      λ t. returned (object (("action", text (codes "SHRINK")) ∷ ("size_multiplier", size) ∷ []));
  float_of_int = λ n. returned (n *ℤ pos 10_000);
  float_of_text = λ t. returned (pos 0);
  str = λ v. [];
}

abbrev complete : Text → ℕ → Outcome Text × ℕ
complete prompt calls = (returned answer, suc calls)

abbrev elapsed_ms : ℕ → ℕ × ℕ
elapsed_ms calls = (12, calls)

abbrev message : Exn → Text
message e = []

abbrev halved : Verdict Fixed
halved = record {
  action = shrink;
  size_multiplier = pos 5_000;
  confidence = pos 5_000;
  rationale = [];
  provider = codes "local";
  latency_ms = 12;
}

analyzed :
    (analyze (library (real (pos 5_000))) complete elapsed_ms message (codes "local") [] 0).0
    ≡ returned halved
unfolding analyze parse_verdict verdict_from read_action action_of to_float make_verdict verdict_ok
    extract_json_object strip_code_fences startswith ends_with_brace find_first_balanced_object
    find_from strip lstrip is_space text_eq lookup ◌*ℤ◌
analyzed = refl

analyze-IsSanctioned_example :
    IsBounded halved
    × IsSanctioned
        (library (real (pos 5_000)))
        complete
        elapsed_ms
        message
        (codes "local")
        []
        0
        halved
analyze-IsSanctioned_example =
    analyze-IsSanctioned (library (real (pos 5_000))) complete elapsed_ms message (codes "local") []
      0 halved analyzed

-- a size that is null raises a TypeError, which comes out
null_size :
    (analyze (library null) complete elapsed_ms message (codes "local") [] 0).0
    ≡ raised (exn type_error)
unfolding analyze parse_verdict verdict_from read_action action_of to_float make_verdict verdict_ok
    extract_json_object strip_code_fences startswith ends_with_brace find_first_balanced_object
    find_from strip lstrip is_space text_eq lookup ◌*ℤ◌
null_size = refl

analyze_ends_example :
    ((v : Verdict Fixed) × ((analyze
          (library null)
          complete
          elapsed_ms
          message
          (codes "local")
          []
          0).0
        ≡ returned v))
    ⊎ ((e : Exn) × ((analyze (library null) complete elapsed_ms message (codes "local") [] 0).0
          ≡ raised e)
        × IsUncaught (library null) complete elapsed_ms message (codes "local") [] 0 e)
analyze_ends_example =
    analyze_ends (library null) complete elapsed_ms message (codes "local") fixed-IsOrdered
      fixed-HasTenths [] 0
