-- ===== src/Backtest/Engine/Prefix.antt =====
-- A backtest does not look ahead.
use trader_ai.Prelude.{
  ℕ, ◌+◌, ◌<◌, ◌≤◌, ◌≡◌, refl, sym, ◌∙◌, ap, subst, none, some, List, [], ◌∷◌, ◌++◌, ltb, lt→ltb,
  arith, length, length-append, append-nil, append_assoc, take, take-append, if◌then◌else◌, if_both,
}
use trader_ai.Float.{Float}
use trader_ai.Core.Signal.{Signal}
use trader_ai.Execution.Exceptions.{Outcome}
use trader_ai.Backtest.Engine.{
  Candle, EquityPoint, BacktestEngine, Walk, take_signal, signals_of, point_of, record_point, round,
  walk, start, run, trade_bar,
}
use trader_ai.Backtest.Engine.Walks.{round_keeps}
use trader_ai.Backtest.Engine.Accounts.{
  closed_before, closed_before_all, closed_before-snoc_late, walk-IsAccounted,
}

-- what the strategy answers at a bar of a prefix does not depend on the bars after it
abbrev pub IsCausal :
    {F S : Type 0}
    → (List (Candle F) → ℕ → S → Outcome (List (Signal F)) × S)
    → List (Candle F)
    → List (Candle F)
    → Type 0
IsCausal {S} on_bar xs ys = (i : ℕ) (s : S) → i < length xs → on_bar (xs ++ ys) i s ≡ on_bar xs i s

module _ {F : Type 0} ⦃fl : Float F⦄ {S : Type 0}
    (on_bar : List (Candle F) → ℕ → S → Outcome (List (Signal F)) × S)
    (engine : BacktestEngine F) where
  -- a walk without what waits for the next bar
  settled : Walk F → Walk F
  settled w = record w { pending = none }

  walk-append :
      (frame rows more : List (Candle F)) (n : ℕ) (x : Walk F × S)
      → walk on_bar engine frame (rows ++ more) n x
        ≡ walk on_bar engine frame more (n + length rows) (walk on_bar engine frame rows n x)
  unfolding walk
  walk-append frame [] more n x = ap (λ k. walk on_bar engine frame more k x) (omega arith)
  walk-append frame (row ∷ rows) more n x =
      walk-append frame rows more (n + 1) (round on_bar engine frame row n x)
      ∙ ap
          (λ k.
            walk on_bar engine frame more k
              (walk on_bar engine frame rows (n + 1) (round on_bar engine frame row n x)))
          (omega arith)

  -- a round with the answer of the strategy and the length of the frame
  rounded : Candle F → ℕ → Walk F → ℕ → Outcome (List (Signal F)) × S → Walk F × S
  rounded row n w total a =
      (record_point row n (take_signal total n (signals_of a.0) (trade_bar engine row n w)), a.1)

  take_signal-settled :
      (row : Candle F) (n total : ℕ) (ss : List (Signal F)) (w : Walk F)
      → settled (record_point row n (take_signal total n ss w)) ≡ settled (record_point row n w)
  unfolding settled record_point
  take_signal-settled row n total [] w = refl
  take_signal-settled row n total (a ∷ ss) w =
      if_both (λ v. settled (record_point row n v) ≡ settled (record_point row n w))
        (ltb (n + 1) total) (λ _. refl) (λ _. refl)

  take_signal-inside :
      (n t u : ℕ) (ss : List (Signal F)) (w : Walk F)
      → n + 1 < t
      → n + 1 < u
      → take_signal t n ss w ≡ take_signal u n ss w
  take_signal-inside n t u [] w h k = refl
  take_signal-inside n t u (a ∷ ss) w h k =
      ap (λ b. if b then record w { pending = some (record { signal = a; signal_bar = n }) } else w)
        (lt→ltb (n + 1) t h ∙ sym (lt→ltb (n + 1) u k))

  module _ (xs ys : List (Candle F)) (causal : IsCausal on_bar xs ys) where
    walk_same :
        (rows : List (Candle F)) (n : ℕ) (w : Walk F) (s : S)
        → n + length rows ≡ length xs
        → settled (walk on_bar engine (xs ++ ys) rows n (w, s)).0
          ≡ settled (walk on_bar engine xs rows n (w, s)).0
    unfolding walk round rounded
    walk_same [] n w s h = refl
    walk_same (row ∷ []) n w s h =
        ap (λ a. settled (rounded row n w (length (xs ++ ys)) a).0) (causal n s (omega (arith, h)))
        ∙ take_signal-settled row n (length (xs ++ ys)) (signals_of (on_bar xs n s).0)
            (trade_bar engine row n w)
        ∙ sym (
            take_signal-settled row n (length xs) (signals_of (on_bar xs n s).0)
              (trade_bar engine row n w))
    walk_same (row ∷ row' ∷ rows) n w s h =
        ap
          (λ a.
            settled
              (walk on_bar engine (xs ++ ys) (row' ∷ rows) (n + 1)
                (rounded row n w (length (xs ++ ys)) a)).0)
          (causal n s (omega (arith, h)))
        ∙ ap
            (λ v.
              settled
                (walk on_bar engine (xs ++ ys) (row' ∷ rows) (n + 1)
                  (record_point row n v, (on_bar xs n s).1)).0)
            (take_signal-inside n (length (xs ++ ys)) (length xs) (signals_of (on_bar xs n s).0)
              (trade_bar engine row n w) (omega (arith, h, length-append xs ys)) (omega (arith, h)))
        ∙ walk_same (row' ∷ rows) (n + 1) _ _ (omega (arith, h))

    -- A walk that went on: its curve is longer and its earlier trades are the same.
    record Continues (v w : Walk F) : Type 0 where
      points : List (EquityPoint F)
      curve : w.equity_curve ≡ v.equity_curve ++ points
      trades : closed_before (length xs) w.closed ≡ closed_before (length xs) v.closed

    round-Continues :
        (v : Walk F) (row : Candle F) (n : ℕ) (w : Walk F) (s : S)
        → length xs ≤ n
        → Continues v w
        → Continues v (round on_bar engine (xs ++ ys) row n (w, s)).0
    unfolding record_point
    round-Continues v row n w s b =
        round_keeps n (Continues v)
          (λ u o e h. record { points = h.points; curve = h.curve; trades = h.trades })
          (λ t u e h. record {
            points = h.points;
            curve = h.curve;
            trades =
                closed_before-snoc_late (length xs) u.closed t (omega (arith, e, b)) ∙ h.trades;
          })
          (Continues v) row
          (λ u h. record {
            points = h.points ++ point_of row n u.realized_pnl ∷ [];
            curve =
                ap (λ l. l ++ point_of row n u.realized_pnl ∷ []) h.curve
                ∙ append_assoc v.equity_curve h.points (point_of row n u.realized_pnl ∷ []);
            trades = h.trades;
          })
          on_bar engine (xs ++ ys) w s

    walk-Continues :
        (v : Walk F) (rows : List (Candle F)) (n : ℕ) (w : Walk F) (s : S)
        → length xs ≤ n
        → Continues v w
        → Continues v (walk on_bar engine (xs ++ ys) rows n (w, s)).0
    unfolding walk
    walk-Continues v [] n w s b h = h
    walk-Continues v (row ∷ rows) n w s b h =
        walk-Continues v rows (n + 1) _ _ (omega (arith, b)) (round-Continues v row n w s b h)

    -- If what the strategy answers at the bars of a prefix does not depend on later bars, then a backtest gives the equity curve of the prefix, followed by later points, and of its trades those that left before the end of the prefix are the trades of a backtest of the prefix alone, in their order.
    pub run_prefix :
        (s : S) (sum : List F → F)
        → (take (length xs) (run on_bar s engine sum (xs ++ ys)).equity_curve
            ≡ (run on_bar s engine sum xs).equity_curve)
          × (closed_before (length xs) (run on_bar s engine sum (xs ++ ys)).closed_trades
              ≡ (run on_bar s engine sum xs).closed_trades)
    unfolding run settled
    run_prefix s sum =
        let same = walk_same xs 0 start s (omega arith) in
        let books = walk-IsAccounted on_bar engine xs s in
        let first = walk on_bar engine (xs ++ ys) xs 0 (start, s) in
        let went =
          subst (λ x. Continues first.0 x.0) (sym (walk-append (xs ++ ys) xs ys 0 (start, s)))
            (walk-Continues first.0 ys (0 + length xs) first.0 first.1 (omega arith)
              (record { points = []; curve = sym (append-nil _); trades = refl })) in
        (
          ap (take (length xs)) went.curve
              ∙ take-append (length xs) first.0.equity_curve went.points
                  (ap (λ (w : Walk F). length w.equity_curve) same ∙ books.points)
              ∙ ap (λ (w : Walk F). w.equity_curve) same,
          went.trades
              ∙ ap (λ (w : Walk F). closed_before (length xs) w.closed) same
              ∙ closed_before_all (length xs) _ books.exits,
        )
