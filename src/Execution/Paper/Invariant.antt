-- ===== src/Execution/Paper/Invariant.antt =====
-- The invariant of the paper broker's book, kept by every operation.
use trader_ai.Prelude.{◌≡◌, true, some, [], ◌∷◌, arith, ℤ, pos, ◌≤ℤ◌, String, str_eq_iff}
use trader_ai.Prelude.Dict.{Dict, insert, erase, Distinct, insert-Distinct, erase-Distinct}
use trader_ai.Float.{Float, nought}
use trader_ai.Core.Signal.{Signal}
use trader_ai.Execution.Broker.{Position, OrderResult, Ids}
use trader_ai.Execution.Paper.{
  PaperBroker, apply_slippage, position_of, fill_entry, place_bracket_order, close_position,
  flatten_all,
}

module _ {F : Type 0} ⦃fl : Float F⦄ where
  -- What a `Position` is validated for, at the key under which it stands.
  pub record IsEntry (symbol : String) (p : Position F) : Type 0 where
    pub own_symbol : p.symbol ≡ symbol
    pub some_qty : pos 1 ≤ℤ p.qty
    pub some_price : fl.lt nought p.entry_price ≡ true

  abbrev pub AllEntries : Dict (Position F) → Type 0
  AllEntries [] = Unit {0}
  AllEntries ((k, p) ∷ d) = IsEntry k p × AllEntries d

  -- One position for each symbol, under its own symbol, with a quantity and a price above zero.
  pub record IsValid (b : PaperBroker F) : Type 0 where
    pub distinct : Distinct b.positions
    pub entries : AllEntries b.positions

  insert-AllEntries :
      (k : String) (p : Position F) (d : Dict (Position F))
      → IsEntry k p
      → AllEntries d
      → AllEntries (insert k p d)
  unfolding insert
  insert-AllEntries k p [] e h = (e, tt)
  insert-AllEntries k p ((j, q) ∷ d) e h =
      ground (arith, str_eq_iff j k, insert-AllEntries k p d e h.1)

  erase-AllEntries : (k : String) (d : Dict (Position F)) → AllEntries d → AllEntries (erase k d)
  unfolding erase
  erase-AllEntries k [] h = tt
  erase-AllEntries k ((j, q) ∷ d) h = ground (arith, erase-AllEntries k d h.1)

  fill_entry-IsValid :
      (ids : Ids) (s : Signal F) (q : ℤ) (fill : F) (b : PaperBroker F) {r : OrderResult F}
      {c : PaperBroker F}
      → IsValid b
      → pos 1 ≤ℤ q
      → fill_entry ids s q fill b ≡ some (r, c)
      → IsValid c
  unfolding fill_entry
  fill_entry-IsValid ids s q fill b v h e = ground (
    arith,
    insert-Distinct s.symbol (position_of s q fill) b.positions v.distinct,
    insert-AllEntries s.symbol (position_of s q fill) b.positions,
  )

  -- An order that does not raise keeps a valid book valid, whether it fills or is refused.
  pub place_bracket_order-IsValid :
      (ids : Ids) (s : Signal F) (q : ℤ) (b : PaperBroker F) {r : OrderResult F} {c : PaperBroker F}
      → IsValid b
      → place_bracket_order ids s q b ≡ some (r, c)
      → IsValid c
  unfolding place_bracket_order
  place_bracket_order-IsValid ids s q b {r} {c} v e = ground (
    arith,
    fill_entry-IsValid ids s q (apply_slippage b.slippage_bps s.entry s.side) b {r = r} {c = c} v,
  )

  -- Closing a position and flattening keep a valid book valid.
  pub close_position-IsValid :
      (symbol : String) (price : F) (b : PaperBroker F)
      → IsValid b
      → IsValid (close_position symbol price b).1 × IsValid (flatten_all b)
  unfolding close_position flatten_all
  close_position-IsValid symbol price b v = ground (
    arith,
    erase-Distinct symbol b.positions v.distinct,
    erase-AllEntries symbol b.positions v.entries,
  )
