-- ===== src/Execution/Reconciler/Backfill.antt =====
-- Where the levels of a reconciled position come from.
use trader_ai.Prelude.{
  ℕ, ◌≡◌, Bool, true, false, ◌&&◌, ◌||◌, Option, none, some, List, [], ◌∷◌, if◌then◌else◌, String,
  str_eq, get_elem?,
}
use trader_ai.Prelude.Dict.{Dict}
use trader_ai.Execution.OrderState.{OrderRecord, is_open}
use trader_ai.Execution.Reconciler.Preference.{IsPreferred}

module _ {F : Type 0} where
  -- the open records of a symbol, in order
  abbrev pub open_of : String → List (OrderRecord F) → List (OrderRecord F)
  open_of s [] = []
  open_of s (r ∷ rs) =
      let rest = open_of s rs in if is_open r.state && str_eq r.symbol s then r ∷ rest else rest

  -- A pick of a list whose elements meet `P`: none if the list is empty, one that meets it otherwise.
  Picks : (OrderRecord F → Type 0) → Bool → Option (OrderRecord F) → Type 0
  Picks P empty none = empty ≡ true
  Picks P empty (some r) = P r

  abbrev pub is_nil : List (OrderRecord F) → Bool
  is_nil [] = true
  is_nil (r ∷ rs) = false

  -- an open record of the symbol among the records
  abbrev pub IsOpenFor : List (OrderRecord F) → String → OrderRecord F → Type 0
  IsOpenFor records s r =
      (is_open r.state ≡ true) × (r.symbol ≡ s) × (k : ℕ) × (get_elem? records k ≡ some r)

  -- whether a record is open and has the symbol
  abbrev pub covers : String → List (OrderRecord F) → Bool
  covers s [] = false
  covers s (r ∷ rs) = (is_open r.state && str_eq r.symbol s) || covers s rs

  -- the record that a position takes its levels from: none if no open record covers its symbol
  abbrev pub Fits : List (OrderRecord F) → Dict String → String → Option (OrderRecord F) → Type 0
  Fits records tags s none = covers s records ≡ false
  Fits records tags s (some r) = IsOpenFor records s r × IsPreferred (open_of s records) tags s r
