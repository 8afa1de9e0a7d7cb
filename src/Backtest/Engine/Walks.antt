-- ===== src/Backtest/Engine/Walks.antt =====
-- What every round of the backtest keeps holds of the whole walk.
use trader_ai.Prelude.{
  ℕ, suc, ◌+◌, ◌≡◌, refl, subst, Option, none, some, List, [], ◌∷◌, length, get_elem?, arith, ltb,
  if_both,
}
use trader_ai.Float.{Float}
use trader_ai.Core.Signal.{Signal}
use trader_ai.Execution.Exceptions.{Outcome}
use trader_ai.Backtest.Engine.{
  Candle, ClosedTrade, TradeExit, OpenPosition, PendingEntry, BacktestEngine, Walk, book,
  reverse_open, fill_pending, fill_due, leave_at, check_exit, trade_bar, signals_of, take_signal,
  close_position, record_point, round, walk, start,
}

-- What a round keeps, if it holds of a walk however its position and its pending entry are set, and
-- the booking of a trade that leaves at the bar keeps it.
abbrev pub OpensKeep : {F : Type 0} → (Walk F → Type 0) → Type 0
OpensKeep {F} P =
    (w : Walk F) (o : Option (OpenPosition F)) (e : Option (PendingEntry F))
    → P w
    → P (record w { position = o; pending = e })

module _ {F : Type 0} ⦃fl : Float F⦄ (n : ℕ) (P : Walk F → Type 0) where
  abbrev pub BooksKeep : Type 0
  BooksKeep = (t : ClosedTrade F) (w : Walk F) → t.exit_bar ≡ n → P w → P (book t w)

  module _ (opens : OpensKeep P) (books : BooksKeep) (engine : BacktestEngine F) where
    reverse_open_keeps :
        (open_price : F) (w : Walk F) (o : Option (OpenPosition F))
        → P w
        → P (reverse_open engine open_price n o w)
    unfolding close_position
    reverse_open_keeps open_price w none h = h
    reverse_open_keeps open_price w (some p) h = books _ w refl h

    fill_due_keeps :
        (open_price : F) (w : Walk F) (o : Option (PendingEntry F))
        → P w
        → P (fill_due engine o open_price n w)
    unfolding fill_pending
    fill_due_keeps open_price w none h = h
    fill_due_keeps open_price w (some e) h =
        if_both P (ltb e.signal_bar n)
          (λ _. opens _ _ _ (reverse_open_keeps open_price w w.position h)) (λ _. h)

    leave_at_keeps :
        (p : OpenPosition F) (w : Walk F) (o : Option (F × TradeExit))
        → P w
        → P (leave_at engine p n o w)
    unfolding close_position
    leave_at_keeps p w none h = h
    leave_at_keeps p w (some (price, reason)) h = opens _ none _ (books _ w refl h)

    check_exit_keeps :
        (row : Candle F) (w : Walk F) (o : Option (OpenPosition F))
        → P w
        → P (check_exit engine row n o w)
    check_exit_keeps row w none h = h
    check_exit_keeps row w (some p) h = leave_at_keeps p w _ h

    trade_bar_keeps : (row : Candle F) (w : Walk F) → P w → P (trade_bar engine row n w)
    unfolding trade_bar
    trade_bar_keeps row w h = check_exit_keeps row _ _ (fill_due_keeps row.open_price w w.pending h)

  take_signal_keeps :
      OpensKeep P
      → (total : ℕ) (w : Walk F) (ss : List (Signal F)) → P w
      → P (take_signal total n ss w)
  take_signal_keeps opens total w [] h = h
  take_signal_keeps opens total w (s ∷ ss) h =
      if_both P (ltb (n + 1) total) (λ _. opens w _ _ h) (λ _. h)

  pub round_keeps :
      {S : Type 0}
      → OpensKeep P
      → BooksKeep
      → (Q : Walk F → Type 0) → (row : Candle F) → ((w : Walk F) → P w → Q (record_point row n w))
      → (on_bar : List (Candle F) → ℕ → S → Outcome (List (Signal F)) × S)
        (engine : BacktestEngine F) (frame : List (Candle F)) (w : Walk F) (s : S)
      → P w
      → Q (round on_bar engine frame row n (w, s)).0
  unfolding round
  round_keeps opens books Q row points on_bar engine frame w s h = points _ (
      take_signal_keeps opens (length frame) _ (signals_of (on_bar frame n s).0)
        (trade_bar_keeps opens books engine row w h))

module _ {F : Type 0} ⦃fl : Float F⦄ {S : Type 0}
    (on_bar : List (Candle F) → ℕ → S → Outcome (List (Signal F)) × S) (engine : BacktestEngine F)
    (frame : List (Candle F)) (P : ℕ → Walk F → Type 0) where
  abbrev pub RoundKeeps : Type 0
  RoundKeeps =
      (n : ℕ) (row : Candle F) (w : Walk F) (s : S)
      → get_elem? frame n ≡ some row
      → P n w
      → P (n + 1) (round on_bar engine frame row n (w, s)).0

  rows_keep :
      RoundKeeps
      → (rows : List (Candle F)) (n : ℕ) (w : Walk F) (s : S)
      → ((i : ℕ) (row : Candle F)
          → get_elem? rows i ≡ some row
          → get_elem? frame (n + i) ≡ some row)
      → P n w
      → P (n + length rows) (walk on_bar engine frame rows n (w, s)).0
  unfolding walk
  rows_keep keeps [] n w s at h = subst (λ k. P k w) (omega arith) h
  rows_keep keeps (row ∷ rows) n w s at h =
      subst (λ k. P k (walk on_bar engine frame (row ∷ rows) n (w, s)).0) (omega arith)
        (rows_keep keeps rows (n + 1) (round on_bar engine frame row n (w, s)).0
          (round on_bar engine frame row n (w, s)).1
          (λ i r q. subst (λ k. get_elem? frame k ≡ some r) (omega arith) (at (suc i) r q))
          (keeps n row w s (subst (λ k. get_elem? frame k ≡ some row) (omega arith) (at 0 row refl))
            h))

  pub walk_keeps :
      RoundKeeps
      → (s : S) → P 0 start
      → P (length frame) (walk on_bar engine frame frame 0 (start, s)).0
  walk_keeps keeps s h =
      subst (λ k. P k (walk on_bar engine frame frame 0 (start, s)).0) (omega arith)
        (rows_keep keeps frame 0 start s
          (λ i row q. subst (λ k. get_elem? frame k ≡ some row) (omega arith) q) h)
