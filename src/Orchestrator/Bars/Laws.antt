-- ===== src/Orchestrator/Bars/Laws.antt =====
-- Which positions survive a bar.
use trader_ai.Prelude.{
  ◌+◌, ◌≡◌, refl, sym, ◌∙◌, ap, Bool, true, false, ◌||◌, Option, none, some, List, [], ◌∷◌,
  if◌then◌else◌, String, str_eq, str_eq_iff, arith, Bool-cases, inl, inr,
}
use trader_ai.Prelude.Dict.{Dict, lookup, values, size}
use trader_ai.Float.{Float}
use trader_ai.Execution.Broker.{Position}
use trader_ai.Execution.Paper.{ExitReason, get_positions, bracket_exit, check_bar_exits}
use trader_ai.Execution.Paper.Invariant.{IsValid, AllEntries, close_position-IsValid}
use trader_ai.Execution.Paper.Effects.{close_position-Closes}
use trader_ai.Orchestrator.Bars.{
  Bar, PaperRun, leave, leave_at, exit_position, exit_positions, apply_bar,
}

module _ {F : Type 0} ⦃fl : Float F⦄ where
  -- What a bar leaves of a position: nothing if its bracket is hit.
  abbrev pub survivor : Bar F → Option (Position F) → Option (Position F)
  survivor bar none = none
  survivor bar (some p) = elim (bracket_exit p.side p.stop_loss p.target bar.high bar.low) [
    | none ↦ some p
    | some _ ↦ none
  ]

  abbrev pub names : String → List (Position F) → Bool
  names j [] = false
  names j (p ∷ ps) = str_eq p.symbol j || names j ps

  survivor_twice :
      (bar : Bar F) (o : Option (Position F)) → survivor bar (survivor bar o) ≡ survivor bar o
  survivor_twice bar none = refl
  survivor_twice bar (some p) = ground arith

  survivor_stays :
      (bar : Bar F) (p : Position F)
      → bracket_exit p.side p.stop_loss p.target bar.high bar.low ≡ none
      → survivor bar (some p) ≡ some p
  survivor_stays bar p e = ground arith

  survivor_gone :
      (bar : Bar F) (p : Position F) {x : F × ExitReason}
      → bracket_exit p.side p.stop_loss p.target bar.high bar.low ≡ some x
      → survivor bar (some p) ≡ none
  survivor_gone bar p e = ground arith

  pub record IsStep (bar : Bar F) (symbol : String) (r r' : PaperRun F) : Type 0 where
    pub still_valid : IsValid r'.broker
    pub survives :
        (j : String)
        → lookup j r'.broker.positions ≡ (
            if str_eq symbol j
            then survivor bar (lookup j r.broker.positions)
            else lookup j r.broker.positions)
    pub counted :
        size r'.broker.positions + r'.progress.stats.bar_exits
        ≡ size r.broker.positions + r.progress.stats.bar_exits

  unchanged-IsStep :
      (bar : Bar F) (symbol : String) (r : PaperRun F) (prices : Dict F)
      → IsValid r.broker
      → survivor bar (lookup symbol r.broker.positions) ≡ lookup symbol r.broker.positions
      → IsStep bar symbol r (record r { last_prices = prices })
  unchanged-IsStep bar symbol r prices v same = record {
    still_valid = v;
    survives = λ j. elim (Bool-cases (str_eq symbol j)) [
      | inl here ↦ rw (here, ← (str_eq_iff symbol j).0 here) (sym same)
      | inr there ↦ rw there refl
    ];
    counted = refl;
  }

  leave-IsStep :
      (bar : Bar F) (symbol : String) (price : F) (r : PaperRun F) (prices : Dict F)
      {q : Position F}
      → IsValid r.broker
      → lookup symbol r.broker.positions ≡ some q
      → survivor bar (some q) ≡ none
      → IsStep bar symbol r (record (leave symbol price r) { last_prices = prices })
  leave-IsStep bar symbol price r prices {q} v held gone =
      let closes = close_position-Closes symbol price r.broker v held in
      record {
        still_valid = (close_position-IsValid symbol price r.broker v).0;
        survives = λ j. elim (Bool-cases (str_eq symbol j)) [
          | inl here ↦ closes.closed j ∙ rw (here, ← (str_eq_iff symbol j).0 here, held, gone) refl
          | inr there ↦ closes.closed j ∙ rw there refl
        ];
        counted = omega (arith, closes.one_less);
      }

  abbrev exit_of : Bar F → Option (Position F) → Option (F × ExitReason)
  exit_of bar o = elim o [
    | none ↦ none
    | some p ↦ bracket_exit p.side p.stop_loss p.target bar.high bar.low
  ]

  decided-IsStep :
      (bar : Bar F) (symbol : String) (r : PaperRun F) (prices : Dict F) (o : Option (Position F))
      (x : Option (F × ExitReason))
      → IsValid r.broker
      → lookup symbol r.broker.positions ≡ o
      → exit_of bar o ≡ x
      → IsStep bar symbol r (record (leave_at symbol x r) { last_prices = prices })
  decided-IsStep bar symbol r prices none none v held e =
      unchanged-IsStep bar symbol r prices v (rw held refl)
  decided-IsStep bar symbol r prices none (some x) v held e = cc
  decided-IsStep bar symbol r prices (some q) none v held e =
      unchanged-IsStep bar symbol r prices v (rw held (survivor_stays bar q e))
  decided-IsStep bar symbol r prices (some q) (some (price, reason)) v held e =
      leave-IsStep bar symbol price r prices v held (survivor_gone bar q e)

  exit_position-IsStep :
      (bar : Bar F) (p : Position F) (r : PaperRun F)
      → IsValid r.broker
      → IsStep bar p.symbol r (exit_position bar p r)
  unfolding exit_position check_bar_exits
  exit_position-IsStep bar p r v =
      let o = lookup p.symbol r.broker.positions in
      decided-IsStep bar p.symbol r _ o (exit_of bar o) v refl refl

  -- Where the positions that are named are gone through.
  pub record IsRound (bar : Bar F) (ps : List (Position F)) (r r' : PaperRun F) : Type 0 where
    pub still_valid : IsValid r'.broker
    pub survives :
        (j : String)
        → lookup j r'.broker.positions ≡ (
            if names j ps
            then survivor bar (lookup j r.broker.positions)
            else lookup j r.broker.positions)
    pub counted :
        size r'.broker.positions + r'.progress.stats.bar_exits
        ≡ size r.broker.positions + r.progress.stats.bar_exits

  cons_survives :
      (bar : Bar F) (here there : Bool) (o o₁ o₂ : Option (Position F))
      → o₁ ≡ (if here then survivor bar o else o)
      → o₂ ≡ (if there then survivor bar o₁ else o₁)
      → o₂ ≡ (if here || there then survivor bar o else o)
  cons_survives bar true true o o₁ o₂ e f = f ∙ ap (survivor bar) e ∙ survivor_twice bar o
  cons_survives bar true false o o₁ o₂ e f = f ∙ e
  cons_survives bar false true o o₁ o₂ e f = f ∙ ap (survivor bar) e
  cons_survives bar false false o o₁ o₂ e f = f ∙ e

  exit_positions-IsRound :
      (bar : Bar F) (ps : List (Position F)) (r : PaperRun F)
      → IsValid r.broker
      → IsRound bar ps r (exit_positions bar ps r)
  unfolding exit_positions
  exit_positions-IsRound bar [] r v = record {
    still_valid = v;
    survives = λ j. refl;
    counted = refl;
  }
  exit_positions-IsRound bar (p ∷ ps) r v =
      let first = exit_position-IsStep bar p r v in
      let rest = exit_positions-IsRound bar ps (exit_position bar p r) first.still_valid in
      record {
        still_valid = rest.still_valid;
        survives = λ j.
            cons_survives bar (str_eq p.symbol j) (names j ps) _ _ _ (first.survives j)
              (rest.survives j);
        counted = rest.counted ∙ first.counted;
      }

  named :
      (bar : Bar F) (d : Dict (Position F)) (j : String)
      → AllEntries d
      → (if names j (values d) then survivor bar (lookup j d) else lookup j d)
        ≡ survivor bar (lookup j d)
  unfolding lookup values
  named bar [] j h = refl
  named bar ((k, p) ∷ d) j (e, h) = elim (Bool-cases (str_eq k j)) [
    | inl here ↦ rw (e.own_symbol, here) refl
    | inr there ↦ rw (e.own_symbol, there) (named bar d j h)
  ]

  -- If the paper book is valid, then after the exits of a bar it is valid; every symbol holds the
  -- position it held, unless the bar hits the bracket of that position, and then none; and each
  -- position that left was counted as one exit.
  pub apply_bar_survivors :
      (symbol : String) (bar : Bar F) (r : PaperRun F) (j : String)
      → IsValid r.broker
      → let r' = apply_bar symbol bar r in
        IsValid r'.broker
        × (lookup j r'.broker.positions ≡ survivor bar (lookup j r.broker.positions))
        × (size r'.broker.positions + r'.progress.stats.bar_exits
            ≡ size r.broker.positions + r.progress.stats.bar_exits)
  unfolding apply_bar get_positions
  apply_bar_survivors symbol bar r j v =
      let all = exit_positions-IsRound bar (values r.broker.positions) r v in
      (all.still_valid, all.survives j ∙ named bar r.broker.positions j v.entries, all.counted)
