-- ===== src/Execution/Paper/Effects.antt =====
-- What placing and closing do to the book, on every branch.
use trader_ai.Prelude.{
  ◌+◌, ◌≡◌, refl, ◌⊎◌, none, some, [], ◌∷◌, ◌++◌, arith, if◌then◌else◌, ltb_ℤ, ℤ, pos, ◌≤ℤ◌, String,
  str_eq, str_eq_iff, Option-cases, Bool-cases, inl, inr,
}
use trader_ai.Prelude.Dict.{
  lookup, erase, size, lookup-insert, lookup-erase_ne, lookup-erase_self, size-erase,
}
use trader_ai.Float.{Float}
use trader_ai.Core.Signal.{Signal}
use trader_ai.Execution.Broker.{Position, OrderResult, filled, order_rejected, Ids}
use trader_ai.Execution.Paper.{
  PaperBroker, apply_slippage, position_of, fill_entry, place_bracket_order, close_position, pnl_at,
}
use trader_ai.Execution.Paper.Invariant.{IsValid}

module _ {F : Type 0} ⦃fl : Float F⦄ where
  -- The order filled: a position was opened for a symbol that had none, and nothing else changed but
  -- the log of orders.
  pub record Fills (s : Signal F) (q : ℤ) (b : PaperBroker F) (r : OrderResult F)
      (c : PaperBroker F) : Type 0 where
    pub was_filled : r.status ≡ filled
    pub some_qty : pos 1 ≤ℤ q
    pub was_free : lookup s.symbol b.positions ≡ none
    pub fill_price : r.fill_price ≡ apply_slippage b.slippage_bps s.entry s.side
    pub opened :
        (j : String)
        → lookup j c.positions ≡ (
            if str_eq s.symbol j then some (position_of s q r.fill_price) else lookup j b.positions)
    pub logged : c.orders ≡ b.orders ++ r ∷ []
    pub same_equity : c.equity ≡ b.equity
    pub same_pnl : c.realized_pnl ≡ b.realized_pnl

  -- The order was refused for one of the two reasons, and nothing changed.
  pub record Refuses (s : Signal F) (q : ℤ) (b : PaperBroker F) (r : OrderResult F)
      (c : PaperBroker F) : Type 0 where
    pub was_refused : r.status ≡ order_rejected
    pub reason : (q ≤ℤ pos 0) ⊎ ((p : Position F) × (lookup s.symbol b.positions ≡ some p))
    pub unchanged : c ≡ b

  fill_entry-Fills :
      (ids : Ids) (s : Signal F) (q : ℤ) (b : PaperBroker F) {r : OrderResult F} {c : PaperBroker F}
      → pos 1 ≤ℤ q
      → lookup s.symbol b.positions ≡ none
      → fill_entry ids s q (apply_slippage b.slippage_bps s.entry s.side) b ≡ some (r, c)
      → Fills s q b r c
  unfolding fill_entry
  fill_entry-Fills ids s q b {r} {c} h n e =
      let fill = apply_slippage b.slippage_bps s.entry s.side in
      record {
        was_filled = ground arith;
        some_qty = h;
        was_free = n;
        fill_price = ground arith;
        opened = λ j. ground (arith, lookup-insert s.symbol j (position_of s q fill) b.positions);
        logged = ground arith;
        same_equity = ground arith;
        same_pnl = ground arith;
      }

  -- An order that does not raise either fills or is refused. It fills at the slipped price with a
  -- quantity of one or more and no position of the symbol open, opens the position, logs the order
  -- and changes nothing else; it is refused for a quantity below one or an open position, and
  -- nothing changes.
  pub place_bracket_order_effect :
      (ids : Ids) (s : Signal F) (q : ℤ) (b : PaperBroker F) {r : OrderResult F} {c : PaperBroker F}
      → place_bracket_order ids s q b ≡ some (r, c)
      → Fills s q b r c ⊎ Refuses s q b r c
  unfolding place_bracket_order
  place_bracket_order_effect ids s q b {r} {c} e = elim (Bool-cases (ltb_ℤ q (pos 1))) [
    | inl short ↦ inr (ground arith)
    | inr enough ↦ elim (Option-cases (lookup s.symbol b.positions)) [
      | inl free ↦ inl (ground (arith, fill_entry-Fills ids s q b {r = r} {c = c}))
      | inr (p, held) ↦
          inr (record {
            was_refused = ground arith;
            reason = inr (p, held);
            unchanged = ground arith;
          })
    ]
  ]

  -- A position is taken out of the book, alone, and its profit is booked in the account.
  pub record Closes (symbol : String) (p : Position F) (price : F) (b : PaperBroker F) (pnl : F)
      (c : PaperBroker F) : Type 0 where
    pub profit : pnl ≡ pnl_at p.side p.entry_price price p.qty
    pub closed :
        (j : String)
        → lookup j c.positions ≡ (if str_eq symbol j then none else lookup j b.positions)
    pub one_less : size b.positions ≡ size c.positions + 1
    pub booked : c.realized_pnl ≡ fl.add b.realized_pnl pnl
    pub credited : c.equity ≡ fl.add b.equity pnl
    pub same_log : c.orders ≡ b.orders

  lookup-erase :
      (symbol j : String) (b : PaperBroker F)
      → IsValid b
      → lookup j (erase symbol b.positions)
        ≡ (if str_eq symbol j then none else lookup j b.positions)
  lookup-erase symbol j b v = elim (Bool-cases (str_eq symbol j)) [
    | inl same ↦
        rw (same, ← (str_eq_iff symbol j).0 same) (lookup-erase_self symbol b.positions v.distinct)
    | inr other ↦ rw other (lookup-erase_ne symbol j b.positions other)
  ]

  -- In a valid book that holds a position of the symbol, closing it removes that position alone and
  -- adds its profit to the realized profit and to the equity.
  pub close_position-Closes :
      (symbol : String) (price : F) (b : PaperBroker F) {p : Position F}
      → IsValid b
      → lookup symbol b.positions ≡ some p
      → let (pnl, c) = close_position symbol price b in Closes symbol p price b pnl c
  unfolding close_position
  close_position-Closes symbol price b {p} v h =
      rw (h, close_position)
        (record {
          profit = refl;
          closed = λ j. lookup-erase symbol j b v;
          one_less = size-erase symbol b.positions h;
          booked = refl;
          credited = refl;
          same_log = refl;
        })
