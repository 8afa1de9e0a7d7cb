-- ===== src/Execution/OrderState/Store/Laws.antt =====
-- The listing of the open records against the table: each of them is the record that `get` gives for
-- its id, and no id is listed twice.
use trader_ai.Prelude.{
  ◌≡◌, refl, Bool, false, ◌||◌, none, some, List, [], ◌∷◌, arith, String, str_eq, str_eq_iff,
}
use trader_ai.Prelude.Dict.{lookup, insert, values, Distinct, lookup-insert, insert-Distinct}
use trader_ai.Execution.OrderState.{OrderRecord}
use trader_ai.Execution.OrderState.Store.{Store, upsert, put_by_age, by_age, only_open, list_open}

module _ {F : Type 0} where
  -- A record of that id is in the list.
  abbrev pub has : String → List (OrderRecord F) → Bool
  has j [] = false
  has j (r ∷ rs) = str_eq r.client_order_id j || has j rs

  abbrev pub Unique : List (OrderRecord F) → Type 0
  Unique [] = Unit {0}
  Unique (r ∷ rs) = (has r.client_order_id rs ≡ false) × Unique rs

  abbrev pub Tracks : Store F → List (OrderRecord F) → Type 0
  Tracks s [] = Unit {0}
  Tracks s (r ∷ rs) = (lookup r.client_order_id s ≡ some r) × Tracks s rs

  abbrev pub OwnKeys : Store F → Type 0
  OwnKeys [] = Unit {0}
  OwnKeys ((k, r) ∷ s) = (r.client_order_id ≡ k) × OwnKeys s

  -- The primary key: every row under its own id, no id twice.
  pub record IsTable (s : Store F) : Type 0 where
    pub distinct : Distinct s
    pub own_keys : OwnKeys s

  insert-OwnKeys :
      (r : OrderRecord F) (s : Store F) → OwnKeys s → OwnKeys (insert r.client_order_id r s)
  unfolding insert
  insert-OwnKeys r [] h = (refl, tt)
  insert-OwnKeys r ((k, q) ∷ s) h =
      ground (arith, str_eq_iff k r.client_order_id, insert-OwnKeys r s h.1)

  -- Writing a record keeps the primary key.
  pub upsert-IsTable : (r : OrderRecord F) (s : Store F) → IsTable s → IsTable (upsert r s)
  unfolding upsert
  upsert-IsTable r s h = record {
    distinct = insert-Distinct r.client_order_id r s h.distinct;
    own_keys = insert-OwnKeys r s h.own_keys;
  }

  pub Tracks-upsert :
      (r : OrderRecord F) (s : Store F) (rs : List (OrderRecord F))
      → has r.client_order_id rs ≡ false
      → Tracks s rs
      → Tracks (upsert r s) rs
  unfolding upsert
  Tracks-upsert r s [] h t = tt
  Tracks-upsert r s (q ∷ rs) h t = ground (
    arith,
    lookup-insert r.client_order_id q.client_order_id r s,
    str_eq_iff r.client_order_id q.client_order_id,
    str_eq_iff q.client_order_id r.client_order_id,
    Tracks-upsert r s rs,
  )

  Tracks-weaken :
      (k : String) (v : OrderRecord F) (s : Store F) (rs : List (OrderRecord F))
      → has k rs ≡ false
      → Tracks s rs
      → Tracks ((k, v) ∷ s) rs
  unfolding lookup
  Tracks-weaken k v s [] h t = tt
  Tracks-weaken k v s (q ∷ rs) h t = ground (
    arith,
    str_eq_iff k q.client_order_id,
    str_eq_iff q.client_order_id k,
    Tracks-weaken k v s rs,
  )

  has-values : (k : String) (s : Store F) → OwnKeys s → lookup k s ≡ none → has k (values s) ≡ false
  unfolding lookup values
  has-values k [] o h = refl
  has-values k ((j, r) ∷ s) o h =
      ground (arith, str_eq_iff r.client_order_id k, str_eq_iff j k, has-values k s o.1)

  own_row :
      (k : String) (r : OrderRecord F) (s : Store F)
      → r.client_order_id ≡ k
      → lookup r.client_order_id ((k, r) ∷ s) ≡ some r
  unfolding lookup
  own_row k r s e = ground (arith, str_eq_iff k r.client_order_id)

  pub values-Tracks :
      (s : Store F) → Distinct s → OwnKeys s → Tracks s (values s) × Unique (values s)
  unfolding values
  values-Tracks [] d o = (tt, tt)
  values-Tracks ((k, r) ∷ s) d o =
      let fresh = has-values k s o.1 d.0 in
      let (t, u) = values-Tracks s d.1 o.1 in
      ((own_row k r s o.0, Tracks-weaken k r s (values s) fresh t), (rw o.0 fresh, u))

  pub has-only_open :
      (j : String) (rs : List (OrderRecord F)) → has j rs ≡ false → has j (only_open rs) ≡ false
  unfolding only_open
  has-only_open j [] h = refl
  has-only_open j (r ∷ rs) h = ground (arith, has-only_open j rs)

  pub only_open-Tracks :
      (s : Store F) (rs : List (OrderRecord F))
      → Tracks s rs
      → Unique rs
      → Tracks s (only_open rs) × Unique (only_open rs)
  unfolding only_open
  only_open-Tracks s [] t u = (tt, tt)
  only_open-Tracks s (r ∷ rs) t u =
      ground (arith, has-only_open r.client_order_id rs, only_open-Tracks s rs t.1 u.1)

  has-put_by_age :
      (j : String) (r : OrderRecord F) (rs : List (OrderRecord F))
      → has j (put_by_age r rs) ≡ (str_eq r.client_order_id j || has j rs)
  unfolding put_by_age
  has-put_by_age j r [] = refl
  has-put_by_age j r (q ∷ rs) = ground (arith, has-put_by_age j r rs)

  put_by_age-Tracks :
      (s : Store F) (r : OrderRecord F) (rs : List (OrderRecord F))
      → lookup r.client_order_id s ≡ some r
      → has r.client_order_id rs ≡ false
      → Tracks s rs
      → Unique rs
      → Tracks s (put_by_age r rs) × Unique (put_by_age r rs)
  unfolding put_by_age
  put_by_age-Tracks s r [] e h t u = ((e, tt), (refl, tt))
  put_by_age-Tracks s r (q ∷ rs) e h t u = ground (
    arith,
    str_eq_iff r.client_order_id q.client_order_id,
    str_eq_iff q.client_order_id r.client_order_id,
    has-put_by_age q.client_order_id r rs,
    put_by_age-Tracks s r rs e,
  )

  pub has-by_age : (j : String) (rs : List (OrderRecord F)) → has j (by_age rs) ≡ has j rs
  unfolding by_age
  has-by_age j [] = refl
  has-by_age j (r ∷ rs) = rw (has-put_by_age j r (by_age rs), has-by_age j rs)

  by_age-Tracks :
      (s : Store F) (rs : List (OrderRecord F))
      → Tracks s rs
      → Unique rs
      → Tracks s (by_age rs) × Unique (by_age rs)
  unfolding by_age
  by_age-Tracks s [] t u = (tt, tt)
  by_age-Tracks s (r ∷ rs) t u =
      let (t', u') = by_age-Tracks s rs t.1 u.1 in
      put_by_age-Tracks s r (by_age rs) t.0 (rw (has-by_age r.client_order_id rs) u.0) t' u'

  pub list_open-Tracks : (s : Store F) → IsTable s → Tracks s (list_open s) × Unique (list_open s)
  unfolding list_open
  list_open-Tracks s h =
      let (t, u) = values-Tracks s h.distinct h.own_keys in
      let (t', u') = only_open-Tracks s (values s) t u in
      by_age-Tracks s (only_open (values s)) t' u'
