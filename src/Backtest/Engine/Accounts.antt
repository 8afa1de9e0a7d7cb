-- ===== src/Backtest/Engine/Accounts.antt =====
-- The books of a backtest: the equity curve against the closed trades.
use trader_ai.Prelude.{
  ℕ, ◌+◌, ◌<◌, ◌≤◌, ◌≡◌, refl, sym, ◌∙◌, ap, some, List, [], ◌∷◌, ◌++◌, if◌then◌else◌, ltb, arith,
  length, get_elem?, length-append, get_elem?-snoc, subst, get_elem?_bound, inl, inr,
}
use trader_ai.Float.{Float, nought}
use trader_ai.Core.Signal.{Signal}
use trader_ai.Execution.Exceptions.{Outcome}
use trader_ai.Backtest.Engine.{
  Candle, ClosedTrade, EquityPoint, BacktestEngine, Walk, record_point, walk, start, run,
}
use trader_ai.Backtest.Engine.Walks.{OpensKeep, BooksKeep, round_keeps, RoundKeeps, walk_keeps}

module _ {F : Type 0} ⦃fl : Float F⦄ where
  open fl use {add}

  -- the profits of trades, added to a total in their order
  abbrev pub total_from : F → List (ClosedTrade F) → F
  total_from total [] = total
  total_from total (t ∷ ts) = total_from (add total t.pnl) ts

  -- the trades that left before the bar `n`
  abbrev pub closed_before : ℕ → List (ClosedTrade F) → List (ClosedTrade F)
  closed_before n [] = []
  closed_before n (t ∷ ts) =
      let rest = closed_before n ts in if ltb t.exit_bar n then t ∷ rest else rest

  -- the point of the curve at a bar
  abbrev pub IsPoint : List (ClosedTrade F) → ℕ → EquityPoint F → Type 0
  IsPoint closed i p =
      (p.bar_index ≡ i) × (p.equity ≡ total_from nought (closed_before (i + 1) closed))

  abbrev pub AllBefore : ℕ → List (ClosedTrade F) → Type 0
  AllBefore m [] = Unit
  AllBefore m (t ∷ ts) = (t.exit_bar < m) × AllBefore m ts

  -- After `n` bars, with every trade out before the bar `m`.
  pub record IsAccounted (m n : ℕ) (w : Walk F) : Type 0 where
    pub exits : AllBefore m w.closed
    pub realized : w.realized_pnl ≡ total_from nought w.closed
    pub points : length w.equity_curve ≡ n
    pub curve :
        (i : ℕ) (p : EquityPoint F) → get_elem? w.equity_curve i ≡ some p → IsPoint w.closed i p

  total_from-snoc :
      (total : F) (ts : List (ClosedTrade F)) (t : ClosedTrade F)
      → total_from total (ts ++ t ∷ []) ≡ add (total_from total ts) t.pnl
  total_from-snoc total [] t = refl
  total_from-snoc total (u ∷ ts) t = total_from-snoc (add total u.pnl) ts t

  closed_before-append :
      (n : ℕ) (ts us : List (ClosedTrade F))
      → closed_before n (ts ++ us) ≡ closed_before n ts ++ closed_before n us
  closed_before-append n [] us = refl
  closed_before-append n (t ∷ ts) us = ground (arith, closed_before-append n ts us)

  pub closed_before-snoc_late :
      (n : ℕ) (ts : List (ClosedTrade F)) (t : ClosedTrade F)
      → n ≤ t.exit_bar
      → closed_before n (ts ++ t ∷ []) ≡ closed_before n ts
  closed_before-snoc_late n [] t h = ground arith
  closed_before-snoc_late n (u ∷ ts) t h = ground (arith, closed_before-snoc_late n ts t h)

  AllBefore-snoc :
      (m : ℕ) (ts : List (ClosedTrade F)) (t : ClosedTrade F)
      → AllBefore m ts
      → t.exit_bar < m
      → AllBefore m (ts ++ t ∷ [])
  AllBefore-snoc m [] t h b = (b, tt)
  AllBefore-snoc m (u ∷ ts) t h b = (h.0, AllBefore-snoc m ts t h.1 b)

  AllBefore-suc : (m : ℕ) (ts : List (ClosedTrade F)) → AllBefore m ts → AllBefore (m + 1) ts
  AllBefore-suc m [] h = tt
  AllBefore-suc m (t ∷ ts) h = (omega (arith, h.0), AllBefore-suc m ts h.1)

  pub closed_before_all :
      (m : ℕ) (ts : List (ClosedTrade F)) → AllBefore m ts → closed_before m ts ≡ ts
  closed_before_all m [] h = refl
  closed_before_all m (t ∷ ts) h = ground (arith, h.0, closed_before_all m ts h.1)

  opened-IsAccounted : {m n : ℕ} → OpensKeep (IsAccounted m n)
  opened-IsAccounted w o e h = record {
    exits = h.exits;
    realized = h.realized;
    points = h.points;
    curve = h.curve;
  }

  book-IsAccounted : {n : ℕ} → BooksKeep n (IsAccounted (n + 1) n)
  book-IsAccounted {n} t w e h = record {
    exits = AllBefore-snoc (n + 1) w.closed t h.exits (omega (arith, e));
    realized = ap (λ x. add x t.pnl) h.realized ∙ sym (total_from-snoc nought w.closed t);
    points = h.points;
    curve = λ i p q. (
      (h.curve i p q).0,
      (h.curve i p q).1
          ∙ ap (total_from nought) (
              sym (
                closed_before-snoc_late (i + 1) w.closed t
                  (omega (arith, e, h.points, get_elem?_bound w.equity_curve i q)))),
    );
  }

  record_point-IsAccounted :
      (row : Candle F) {n : ℕ} {w : Walk F}
      → IsAccounted (n + 1) n w
      → IsAccounted (n + 1) (n + 1) (record_point row n w)
  unfolding record_point
  record_point-IsAccounted row {n} {w} h = record {
    exits = h.exits;
    realized = h.realized;
    points = length-append w.equity_curve _ ∙ ap (λ k. k + 1) h.points;
    curve = λ i p q. elim (get_elem?-snoc w.equity_curve _ p i q) [
      | inl old ↦ h.curve i p old
      | inr new ↦ subst (IsPoint w.closed i) new.1 (
        sym h.points ∙ sym new.0,
        h.realized
            ∙ ap (total_from nought) (
                sym (
                  subst (λ k. closed_before k w.closed ≡ w.closed)
                    (ap (λ k. k + 1) (sym (new.0 ∙ h.points)))
                    (closed_before_all (n + 1) w.closed h.exits))),
      )
    ];
  }

  module _ {S : Type 0} (on_bar : List (Candle F) → ℕ → S → Outcome (List (Signal F)) × S)
      (engine : BacktestEngine F) (frame : List (Candle F)) where
    round-IsAccounted : RoundKeeps on_bar engine frame (λ n w. IsAccounted n n w)
    round-IsAccounted n row w s q h =
        round_keeps n (IsAccounted (n + 1) n) opened-IsAccounted book-IsAccounted
          (IsAccounted (n + 1) (n + 1)) row (λ v a. record_point-IsAccounted row a) on_bar engine
          frame w s
          (record {
            exits = AllBefore-suc n w.closed h.exits;
            realized = h.realized;
            points = h.points;
            curve = h.curve;
          })

    pub walk-IsAccounted :
        (s : S)
        → IsAccounted (length frame) (length frame) (walk on_bar engine frame frame 0 (start, s)).0
    walk-IsAccounted s =
        walk_keeps on_bar engine frame (λ n w. IsAccounted n n w) round-IsAccounted s
          (record {
            exits = tt;
            realized = refl;
            points = refl;
            curve = λ i p q. ground (arith, q);
          })

    -- A backtest has one equity point for each bar, in order; every trade leaves within the frame; and the equity at a bar is the sum, from the left, of the profits of the trades that have left by that bar.
    pub run-IsAccounted :
        (s : S) (sum : List F → F)
        → (length (run on_bar s engine sum frame).equity_curve ≡ length frame)
          × AllBefore (length frame) (run on_bar s engine sum frame).closed_trades
          × ((i : ℕ) (p : EquityPoint F)
              → get_elem? (run on_bar s engine sum frame).equity_curve i ≡ some p
              → IsPoint (run on_bar s engine sum frame).closed_trades i p)
    unfolding run
    run-IsAccounted s sum = let h = walk-IsAccounted s in (h.points, h.exits, h.curve)
