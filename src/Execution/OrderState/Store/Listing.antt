-- ===== src/Execution/OrderState/Store/Listing.antt =====
-- The listing of the open records against the table: the rows that are open, all of them, once each
-- and the oldest first.
use trader_ai.Prelude.{
  ◌≡◌, refl, ◌∙◌, ap, true, false, Option, none, some, List, [], ◌∷◌, if◌then◌else◌, if_both, arith,
  leb, String, str_eq, str_eq_iff,
}
use trader_ai.Prelude.Dict.{lookup, values}
use trader_ai.Execution.OrderState.{OrderRecord, is_open}
use trader_ai.Execution.OrderState.Store.{Store, put_by_age, by_age, only_open, list_open}
use trader_ai.Execution.OrderState.Store.Laws.{
  has, Unique, IsTable, OwnKeys, has-only_open, list_open-Tracks, values-Tracks, only_open-Tracks,
  has-by_age,
}

module _ {F : Type 0} where
  -- the first record of an id in a list
  abbrev pub find : String → List (OrderRecord F) → Option (OrderRecord F)
  find j [] = none
  find j (r ∷ rs) = if str_eq r.client_order_id j then some r else find j rs

  -- a row, if it is open
  abbrev pub if_open : Option (OrderRecord F) → Option (OrderRecord F)
  if_open none = none
  if_open (some r) = if is_open r.state then some r else none

  abbrev pub NoOlder : OrderRecord F → List (OrderRecord F) → Type 0
  NoOlder r [] = Unit
  NoOlder r (q ∷ qs) = leb r.created_at q.created_at ≡ true

  abbrev pub IsByAge : List (OrderRecord F) → Type 0
  IsByAge [] = Unit
  IsByAge (r ∷ rs) = NoOlder r rs × IsByAge rs

  -- For each id the list has the row of that id if there is one and it is open, and nothing else;
  -- no id twice, and no record after a younger one.
  pub record IsListing (s : Store F) (rs : List (OrderRecord F)) : Type 0 where
    pub rows : (j : String) → find j rs ≡ if_open (lookup j s)
    pub unique : Unique rs
    pub by_age : IsByAge rs

  find-values : (j : String) (s : Store F) → OwnKeys s → find j (values s) ≡ lookup j s
  unfolding lookup values
  find-values j [] o = refl
  find-values j ((k, r) ∷ s) o = rw (o.0, find-values j s o.1) refl

  find-has : (j : String) (rs : List (OrderRecord F)) → has j rs ≡ false → find j rs ≡ none
  find-has j [] h = refl
  find-has j (r ∷ rs) h = ground (arith, find-has j rs)

  find-only_open :
      (j : String) (rs : List (OrderRecord F))
      → Unique rs
      → find j (only_open rs) ≡ if_open (find j rs)
  unfolding only_open
  find-only_open j [] u = refl
  find-only_open j (r ∷ rs) u = ground (
    arith,
    find-only_open j rs u.1,
    str_eq_iff r.client_order_id j,
    has-only_open r.client_order_id rs u.0,
    find-has r.client_order_id (only_open rs),
  )

  find-put_by_age :
      (j : String) (r : OrderRecord F) (rs : List (OrderRecord F))
      → has r.client_order_id rs ≡ false
      → find j (put_by_age r rs) ≡ (if str_eq r.client_order_id j then some r else find j rs)
  unfolding put_by_age
  find-put_by_age j r [] h = refl
  find-put_by_age j r (q ∷ rs) h = ground (
    arith,
    find-put_by_age j r rs,
    str_eq_iff r.client_order_id j,
    str_eq_iff q.client_order_id j,
    str_eq_iff q.client_order_id r.client_order_id,
  )

  find-by_age :
      (j : String) (rs : List (OrderRecord F)) → Unique rs → find j (by_age rs) ≡ find j rs
  unfolding by_age
  find-by_age j [] u = refl
  find-by_age j (r ∷ rs) u =
      find-put_by_age j r (by_age rs) (has-by_age r.client_order_id rs ∙ u.0)
      ∙ ap (λ o. if str_eq r.client_order_id j then some r else o) (find-by_age j rs u.1)

  put_by_age-NoOlder :
      (p r : OrderRecord F) (rs : List (OrderRecord F))
      → leb p.created_at r.created_at ≡ true
      → NoOlder p rs
      → NoOlder p (put_by_age r rs)
  unfolding put_by_age
  put_by_age-NoOlder p r [] h n = h
  put_by_age-NoOlder p r (q ∷ rs) h n = ground arith

  put_by_age-IsByAge :
      (r : OrderRecord F) (rs : List (OrderRecord F)) → IsByAge rs → IsByAge (put_by_age r rs)
  unfolding put_by_age
  put_by_age-IsByAge r [] h = (tt, tt)
  put_by_age-IsByAge r (q ∷ rs) h =
      if_both IsByAge (leb r.created_at q.created_at) (λ first. (first, h))
        (λ later.
          (put_by_age-NoOlder q r rs (ground (arith, later)) h.0, put_by_age-IsByAge r rs h.1))

  by_age-IsByAge : (rs : List (OrderRecord F)) → IsByAge (by_age rs)
  unfolding by_age
  by_age-IsByAge [] = tt
  by_age-IsByAge (r ∷ rs) = put_by_age-IsByAge r (by_age rs) (by_age-IsByAge rs)

  -- Of a table `list_open` lists exactly the open records: under each id the row of that id if there is one and it is open, and none otherwise; no id is listed twice, and no record stands after one that was created later.
  pub list_open-IsListing : (s : Store F) → IsTable s → IsListing s (list_open s)
  unfolding list_open
  list_open-IsListing s h =
      let distinct = (values-Tracks s h.distinct h.own_keys).1 in
      let (_, unique) =
        only_open-Tracks s (values s) (values-Tracks s h.distinct h.own_keys).0 distinct in
      record {
        rows = λ j.
            find-by_age j (only_open (values s)) unique
            ∙ find-only_open j (values s) distinct
            ∙ ap if_open (find-values j s h.own_keys);
        unique = (list_open-Tracks s h).1;
        by_age = by_age-IsByAge (only_open (values s));
      }
