-- ===== src/Execution/Paper/Exits.antt =====
-- The exits of a bar: the stop wins, and leaving at the stop is never a gain.
use trader_ai.Prelude.{ℕ, ◌≤◌, ◌≡◌, refl, true, some, arith, ℤ, pos, str_eq, str_eq_iff}
use trader_ai.Prelude.Dict.{lookup}
use trader_ai.Float.{Float, IsOrdered, HasSigns, nought}
use trader_ai.Core.Signal.{Side, buy, sell, Signal}
use trader_ai.Core.Signal.Laws.{IsPriced, IsValid}
use trader_ai.Execution.Broker.{PositionSide, long, short, OrderResult, position_side}
use trader_ai.Execution.Paper.{
  PaperBroker, stop_loss, apply_slippage, close_position, pnl_at, exit_at, check_bar_exits,
  position_of,
}
use trader_ai.Execution.Paper.Effects.{Fills}

module _ {F : Type 0} ⦃fl : Float F⦄ where
  open fl use {le, lt}

  -- The bar reaches a level from the side of a loss, or from the side of a gain.
  abbrev pub StopHit : PositionSide → F → F → F → Type 0
  StopHit long stop high low = le low stop ≡ true
  StopHit short stop high low = le stop high ≡ true

  abbrev pub TargetHit : PositionSide → F → F → F → Type 0
  TargetHit long goal high low = le goal high ≡ true
  TargetHit short goal high low = le low goal ≡ true

  exit_at-stop :
      (side : PositionSide) (stop goal high low : F) {price : F}
      → exit_at side stop goal high low ≡ some (price, stop_loss)
      → price ≡ stop
  unfolding exit_at
  exit_at-stop long stop goal high low e = ground arith
  exit_at-stop short stop goal high low e = ground arith

  held :
      (s : Signal F) (q : ℤ) (b c : PaperBroker F) (r : OrderResult F)
      → Fills s q b r c
      → lookup s.symbol c.positions ≡ some (position_of s q r.fill_price)
  held s q b c r f =
      let self : str_eq s.symbol s.symbol ≡ true = (str_eq_iff s.symbol s.symbol).1 refl in
      ground (arith, f.opened s.symbol, self)

  module _ (laws : IsOrdered fl) (signs : HasSigns fl) where
    open laws use {le_lt_trans, lt_le_trans, le_of_lt}
    open signs use {sub_nonpos, mul_nonpos, bps_nonneg, one_add, one_sub, mul_grow, mul_shrink}

    stop_exit_nonpos :
        (side : Side) (bps entry stop goal : F) (n : ℕ)
        → le nought bps ≡ true
        → IsPriced side entry stop goal
        → 1 ≤ n
        → le (pnl_at (position_side side) (apply_slippage bps entry side) stop (pos n)) nought
          ≡ true
    unfolding apply_slippage
    stop_exit_nonpos buy bps entry stop goal n h v k =
        let worse = mul_grow entry _ v.entry_pos (one_add _ (bps_nonneg bps h)) in
        mul_nonpos _ n k (sub_nonpos stop _ (lt_le_trans _ _ _ v.direction.0 worse))
    stop_exit_nonpos sell bps entry stop goal n h v k =
        let worse =
          mul_shrink entry stop _ v.entry_pos v.direction.1 (one_sub _ (bps_nonneg bps h)) in
        mul_nonpos _ n k (sub_nonpos _ stop (le_lt_trans _ _ _ worse v.direction.1))

    -- Given the laws of order and of signs: if a valid signal was filled in a book whose slippage is
    -- not negative, and a bar then takes the position out at its stop, the price is the stop of the
    -- signal, and closing at it books a profit of at most zero.
    pub stop_exit_loses :
        (s : Signal F) (n : ℕ) (b c : PaperBroker F) (r : OrderResult F) (high low : F) {price : F}
        → IsValid s
        → le nought b.slippage_bps ≡ true
        → Fills s (pos n) b r c
        → check_bar_exits s.symbol high low c ≡ some (price, stop_loss)
        → (price ≡ s.stop_loss) × (le (close_position s.symbol price c).0 nought ≡ true)
    unfolding check_bar_exits close_position
    stop_exit_loses s n b c r high low {price} v h f e =
        let at = held s (pos n) b c r f in
        let same =
          exit_at-stop (position_side s.side) s.stop_loss s.target high low {price = price}
            (ground (arith, at, e)) in
        (
          same,
          rw (close_position, at, same, f.fill_price)
              (stop_exit_nonpos s.side b.slippage_bps s.entry s.stop_loss s.target n h v
                (omega (arith, f.some_qty))),
        )
