-- ===== src/Backtest/Engine/Trades.antt =====
-- Where the trades of a backtest come from.
use trader_ai.Prelude.{
  ℕ, ◌+◌, ◌<◌, ◌≤◌, ◌≡◌, refl, sym, subst, Bool, true, false, Option, none, some, List, [], ◌∷◌,
  if_both, if◌then◌else◌, ltb, lt→ltb, arith, length, get_elem?, get_elem?-snoc, inl, inr,
}
use trader_ai.Prelude.Options.{some_injective}
use trader_ai.Float.{Float}
use trader_ai.Core.Signal.{Signal}
use trader_ai.Execution.Exceptions.{Outcome, returned, raised}
use trader_ai.Execution.Broker.{PositionSide, long, short}
use trader_ai.Backtest.Engine.{
  Candle, ClosedTrade, TradeExit, at_stop, at_target, signal_reverse, BacktestEngine, Walk,
  OpenPosition, PendingEntry, book, reverse_open, fill_pending, fill_due, exit_level, leave_at,
  check_exit, trade_bar, take_signal, signals_of, record_point, round, run, close_position,
  opened_at,
}
use trader_ai.Backtest.Engine.Walks.{RoundKeeps, walk_keeps}

module _ {F : Type 0} ⦃fl : Float F⦄ where
  open fl use {le}

  -- whether a bar reaches the stop, or the target, of a position
  abbrev pub hits_stop : PositionSide → F → Candle F → Bool
  hits_stop long level row = le row.low level
  hits_stop short level row = le level row.high

  abbrev pub hits_target : PositionSide → F → Candle F → Bool
  hits_target long level row = le level row.high
  hits_target short level row = le row.low level

  -- the price at which a position leaves in a bar, before slippage
  abbrev pub LeavesFor : OpenPosition F → Candle F → ℕ → F → TradeExit → Type 0
  LeavesFor p row bar_index price at_stop =
      (price ≡ p.stop_loss) × (hits_stop p.side p.stop_loss row ≡ true) × (p.entry_bar ≤ bar_index)
  LeavesFor p row bar_index price at_target =
      (price ≡ p.target)
      × (hits_target p.side p.target row ≡ true)
      × (hits_stop p.side p.stop_loss row ≡ false)
      × (p.entry_bar ≤ bar_index)
  LeavesFor p row bar_index price signal_reverse =
      (price ≡ row.open_price) × (p.entry_bar < bar_index)

  exit_level-LeavesFor :
      (p : OpenPosition F) (row : Candle F) (n : ℕ) (price : F) (reason : TradeExit)
      → exit_level p.side p.stop_loss p.target row.high row.low ≡ some (price, reason)
      → p.entry_bar ≤ n
      → LeavesFor p row n price reason
  unfolding exit_level
  exit_level-LeavesFor p row n price at_stop h b = ground arith
  exit_level-LeavesFor p row n price at_target h b = ground arith
  exit_level-LeavesFor p row n price signal_reverse h b = ground arith

  module _ {S : Type 0} (on_bar : List (Candle F) → ℕ → S → Outcome (List (Signal F)) × S)
      (engine : BacktestEngine F) (frame : List (Candle F)) where
    -- an entry for the first signal of its bar
    abbrev pub IsSignalled : PendingEntry F → Type 0
    IsSignalled e =
        (s : S) × (ss : List (Signal F)) × ((on_bar frame e.signal_bar s).0
          ≡ returned (e.signal ∷ ss))

    -- a position that was filled at the open of the bar after its signal
    abbrev pub IsFilled : OpenPosition F → Type 0
    IsFilled p =
        (e : PendingEntry F) × (row : Candle F) × IsSignalled e
        × (p.entry_bar ≡ e.signal_bar + 1)
        × (get_elem? frame p.entry_bar ≡ some row)
        × (p ≡ opened_at engine e.signal row.open_price p.entry_bar)

    abbrev pub IsRoundTrip : ClosedTrade F → Type 0
    IsRoundTrip t =
        (p : OpenPosition F) × (row : Candle F) × (price : F) × IsFilled p
        × (get_elem? frame t.exit_bar ≡ some row)
        × LeavesFor p row t.exit_bar price t.exit_reason
        × (t ≡ close_position engine.cost_model p price t.exit_bar t.exit_reason)

    pub record IsTraded (n : ℕ) (w : Walk F) : Type 0 where
      pub trades : (i : ℕ) (t : ClosedTrade F) → get_elem? w.closed i ≡ some t → IsRoundTrip t
      pub position : (p : OpenPosition F) → w.position ≡ some p → IsFilled p × (p.entry_bar < n)
      pub pending :
          (e : PendingEntry F) → w.pending ≡ some e → IsSignalled e × (e.signal_bar + 1 ≡ n)

    Booked : List (ClosedTrade F) → Type 0
    Booked ts = (i : ℕ) (t : ClosedTrade F) → get_elem? ts i ≡ some t → IsRoundTrip t

    book-Booked :
        (w : Walk F) (t : ClosedTrade F)
        → Booked w.closed
        → IsRoundTrip t
        → Booked (book t w).closed
    unfolding Booked
    book-Booked w t h r i u q = elim (get_elem?-snoc w.closed t u i q) [
      | inl old ↦ h i u old
      | inr new ↦ subst IsRoundTrip new.1 r
    ]

    closing-IsRoundTrip :
        (p : OpenPosition F) (row : Candle F) (price : F) (n : ℕ) (reason : TradeExit)
        → IsFilled p
        → get_elem? frame n ≡ some row
        → LeavesFor p row n price reason
        → IsRoundTrip (close_position engine.cost_model p price n reason)
    unfolding close_position
    closing-IsRoundTrip p row price n reason f q l = (p, row, price, f, q, l, refl)

    reverse_open-Booked :
        (n : ℕ) (row : Candle F) (o : Option (OpenPosition F)) (w : Walk F)
        → get_elem? frame n ≡ some row
        → ((p : OpenPosition F) → o ≡ some p → IsFilled p × (p.entry_bar < n))
        → Booked w.closed
        → Booked (reverse_open engine row.open_price n o w).closed
    reverse_open-Booked n row none w q f h = h
    reverse_open-Booked n row (some p) w q f h = book-Booked w _ h (
        closing-IsRoundTrip p row row.open_price n signal_reverse (f p refl).0 q
          (refl, (f p refl).1))

    opened-IsFilled :
        (n : ℕ) (row : Candle F) (a : PendingEntry F)
        → get_elem? frame n ≡ some row
        → IsSignalled a
        → a.signal_bar + 1 ≡ n
        → IsFilled (opened_at engine a.signal row.open_price n)
          × ((opened_at engine a.signal row.open_price n).entry_bar < n + 1)
    unfolding opened_at
    opened-IsFilled n row a q s e = ((a, row, s, sym e, q, refl), omega arith)

    fill_due-IsTraded :
        (n : ℕ) (row : Candle F) (o : Option (PendingEntry F)) (w : Walk F)
        → get_elem? frame n ≡ some row
        → w.pending ≡ o
        → IsTraded n w
        → IsTraded (n + 1) (fill_due engine o row.open_price n w)
    unfolding Booked fill_pending opened_at
    fill_due-IsTraded n row none w q e h = record {
      trades = h.trades;
      position = λ p r. ((h.position p r).0, omega (arith, (h.position p r).1));
      pending = λ a r. ground (arith, e, r);
    }
    fill_due-IsTraded n row (some a) w q e h =
        subst (λ b. IsTraded (n + 1) (if b then fill_pending engine a row.open_price n w else w))
          (sym (lt→ltb a.signal_bar n (omega (arith, (h.pending a e).1))))
          (record {
            trades = reverse_open-Booked n row w.position w q h.position h.trades;
            position = λ p r.
                subst (λ x. IsFilled x × (x.entry_bar < n + 1)) (some_injective r)
                  (opened-IsFilled n row a q (h.pending a e).0 (h.pending a e).1);
            pending = λ b r. ground (arith, r);
          })

    exit-IsTraded :
        (n : ℕ) (row : Candle F) (p : OpenPosition F) (o : Option (F × TradeExit)) (w : Walk F)
        → get_elem? frame n ≡ some row
        → w.position ≡ some p
        → exit_level p.side p.stop_loss p.target row.high row.low ≡ o
        → IsTraded (n + 1) w
        → IsTraded (n + 1) (leave_at engine p n o w)
    unfolding Booked
    exit-IsTraded n row p none w q e l h = h
    exit-IsTraded n row p (some (price, reason)) w q e l h = record {
      trades = book-Booked w _ h.trades (
          closing-IsRoundTrip p row price n reason (h.position p e).0 q
            (exit_level-LeavesFor p row n price reason l (omega (arith, (h.position p e).1))));
      position = λ a r. ground (arith, r);
      pending = h.pending;
    }

    check_exit-IsTraded :
        (n : ℕ) (row : Candle F) (o : Option (OpenPosition F)) (w : Walk F)
        → get_elem? frame n ≡ some row
        → w.position ≡ o
        → IsTraded (n + 1) w
        → IsTraded (n + 1) (check_exit engine row n o w)
    check_exit-IsTraded n row none w q e h = h
    check_exit-IsTraded n row (some p) w q e h = exit-IsTraded n row p _ w q e refl h

    take_signal-IsTraded :
        (n : ℕ) (total : ℕ) (s : S) (answer : Outcome (List (Signal F))) (w : Walk F)
        → (on_bar frame n s).0 ≡ answer
        → IsTraded (n + 1) w
        → IsTraded (n + 1) (take_signal total n (signals_of answer) w)
    take_signal-IsTraded n total s (raised x) w e h = h
    take_signal-IsTraded n total s (returned []) w e h = h
    take_signal-IsTraded n total s (returned (a ∷ ss)) w e h =
        if_both (IsTraded (n + 1)) (ltb (n + 1) total)
          (λ _. record {
            trades = h.trades;
            position = h.position;
            pending = λ b r.
                subst (λ x. IsSignalled x × (x.signal_bar + 1 ≡ n + 1)) (some_injective r)
                  ((s, ss, e), refl);
          })
          (λ _. h)

    round-IsTraded : RoundKeeps on_bar engine frame IsTraded
    unfolding round trade_bar record_point
    round-IsTraded n row w s q h =
        let filled = fill_due-IsTraded n row w.pending w q refl h in
        let traded = check_exit-IsTraded n row _ _ q refl filled in
        let answered = take_signal-IsTraded n (length frame) s _ _ refl traded in
        record {
          trades = answered.trades;
          position = answered.position;
          pending = answered.pending;
        }

    -- Every trade of a backtest was entered for the first signal that the strategy gave at the bar before its entry, at the slipped open of its entry bar; it left at its stop in a bar that reached the stop, or at its target in a bar that reached the target and not the stop, or at the open of a later bar that reverses it; and its price, fees and profit are those of closing that position at that level.
    pub run-IsRoundTrip :
        (s : S) (sum : List F → F) (i : ℕ) (t : ClosedTrade F)
        → get_elem? (run on_bar s engine sum frame).closed_trades i ≡ some t
        → IsRoundTrip t
    unfolding run
    run-IsRoundTrip s sum =
        (walk_keeps on_bar engine frame IsTraded round-IsTraded s (record {
          trades = λ i t q. ground (arith, q);
          position = λ p q. ground (arith, q);
          pending = λ e q. ground (arith, q);
        })).trades
