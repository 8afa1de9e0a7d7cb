-- ===== src/Execution/OrderState/Store.antt =====
-- `class OrderStateStore`: upsert, get and the listings.
pub mod Laws
pub mod Listing
use trader_ai.Prelude.{
  ℕ, Bool, true, false, Option, none, some, List, [], ◌∷◌, if◌then◌else◌, leb, String,
}
use trader_ai.Prelude.Dict.{Dict, lookup, insert, values}
use trader_ai.Execution.OrderState.{OrderRecord, is_open}

abbrev pub Store : Type 0 → Type 0
Store F = Dict (OrderRecord F)

module _ {F : Type 0} where
  unfoldable pub upsert : OrderRecord F → Store F → Store F
  upsert r s = insert r.client_order_id r s

  unfoldable pub get : String → Store F → Option (OrderRecord F)
  get client_order_id s = lookup client_order_id s

  -- `ORDER BY created_at`: rows of one time stay in the order of their insertion
  unfoldable pub put_by_age : OrderRecord F → List (OrderRecord F) → List (OrderRecord F)
  put_by_age r [] = r ∷ []
  put_by_age r (q ∷ qs) =
      let rest = put_by_age r qs in if leb r.created_at q.created_at then r ∷ q ∷ qs else q ∷ rest

  unfoldable pub by_age : List (OrderRecord F) → List (OrderRecord F)
  by_age [] = []
  by_age (r ∷ rs) = put_by_age r (by_age rs)

  unfoldable pub only_open : List (OrderRecord F) → List (OrderRecord F)
  only_open [] = []
  only_open (r ∷ rs) = let rest = only_open rs in if is_open r.state then r ∷ rest else rest

  unfoldable pub list_open : Store F → List (OrderRecord F)
  list_open s = by_age (only_open (values s))

  unfoldable pub list_all : Store F → List (OrderRecord F)
  list_all s = by_age (values s)
